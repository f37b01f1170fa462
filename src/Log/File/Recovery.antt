-- ===== src/Log/File/Recovery.antt =====
-- What a process finds when it opens the directory that another one left.
use bf_multiraft.Base.{
  ◌≡◌, refl, sym, ap, of_some, ◌∙◌, ◌⊎◌, inl, inr, Option, none, some, List, [], ◌∷◌,
}
use bf_multiraft.Io.{IoResult-cases, IoError, ok, err, Env}
use bf_multiraft.RaftTypes.{RaftTypes}
use bf_multiraft.Log.Memory.{Call, saves_committed, saves_vote, appends, truncates, purges}
use bf_multiraft.Log.Memory
use bf_multiraft.Log.File.{Disk, FileLogInner, Codecs, After, step, run, then_run}
use bf_multiraft.Log.File.Refines.{in_memory, memory_after, step-Memory}
use bf_multiraft.Log.File.Synced.{Synced, Reopens, open_store-Synced}
use bf_multiraft.Log.File.Faults.{saved, unchanged, LeftBy, LeftAfter, step-Left}

module _ (C : RaftTypes) (json : Codecs C) where
  -- What a failed call may leave: the old store, and after a failed `purge` also the old log under
  -- the new purged log id.
  abbrev pub FailedTo : Call C → FileLogInner C → Disk → Type 0
  FailedTo (saves_committed id) s d = Reopens C json d s
  FailedTo (saves_vote v) s d = Reopens C json d s
  FailedTo (appends es) s d = Reopens C json d s
  FailedTo (truncates id) s d = Reopens C json d s
  FailedTo (purges id) s d =
      Reopens C json d s ⊎ Reopens C json d (record s { last_purged_log_id = some id })

  abbrev pub Recovers : Call C → FileLogInner C → After C → Type 0
  Recovers c s a =
      ((a.result ≡ ok tt) × Reopens C json a.env.disk a.inner)
      ⊎ ((e : IoError) × (a.result ≡ err e) × FailedTo c s a.env.disk)

  reopens : (s : FileLogInner C) (d : Disk) → Synced C json s d → Reopens C json d s
  reopens = open_store-Synced C json

  -- From a directory that holds the store, under any faults: a call that returns `Ok` has made the
  -- new store durable, and one that returns an error has left the old store on disk, whole, but for
  -- `purge`, which may have written the purged log id alone.
  pub step-Recovers :
      (c : Call C) (s : FileLogInner C) (w : Env Disk) (a : After C)
      → Synced C json s w.disk
      → step C json c s w ≡ some a
      → Recovers c s a
  step-Recovers c s w a h e = go c (step-Left C json c s w a e h)
    where
      simple :
          {F : Type 0}
          → (Reopens C json a.env.disk s → F)
          → LeftBy C json s a
          → ((a.result ≡ ok tt) × Reopens C json a.env.disk a.inner)
            ⊎ ((e : IoError) × (a.result ≡ err e) × F)
      simple f (saved q y) = inl (q, reopens _ _ y)
      simple f (unchanged x q y) = inr (x, q, f (reopens _ _ y))

      go : (c : Call C) → LeftAfter C json c s a → Recovers c s a
      go (saves_committed id) l = simple (λ r. r) l
      go (saves_vote v) l = simple (λ r. r) l
      go (appends es) l = simple (λ r. r) l
      go (truncates id) l = simple (λ r. r) l
      go (purges id) (inl l) = simple inl l
      go (purges id) (inr (x, q, y)) = inr (x, q, inr (reopens _ _ y))

  left-Synced :
      (s : FileLogInner C) (a : After C)
      → LeftBy C json s a
      → a.result ≡ ok tt
      → Synced C json a.inner a.env.disk
  left-Synced s a (saved q y) r = y
  left-Synced s a (unchanged x q y) r = cc

  after-Synced :
      (c : Call C) (s : FileLogInner C) (a : After C)
      → LeftAfter C json c s a
      → a.result ≡ ok tt
      → Synced C json a.inner a.env.disk
  after-Synced (saves_committed id) s a l r = left-Synced s a l r
  after-Synced (saves_vote v) s a l r = left-Synced s a l r
  after-Synced (appends es) s a l r = left-Synced s a l r
  after-Synced (truncates id) s a l r = left-Synced s a l r
  after-Synced (purges id) s a (inl l) r = left-Synced s a l r
  after-Synced (purges id) s a (inr (x, q, y)) r = cc

  then_run-some :
      (k : FileLogInner C → Env Disk → Option (FileLogInner C × Env Disk)) (o : Option (After C))
      (r : FileLogInner C × Env Disk)
      → then_run C json k o ≡ some r
      → (a : After C) × (o ≡ some a) × (a.result ≡ ok tt) × (k a.inner a.env ≡ some r)
  then_run-some k none r h = cc
  then_run-some k (some a) r h = elim (IoResult-cases a.result) [
    | inl (u, q) ↦ (a, refl, q, rw q at h)
    | inr (e, q) ↦
        let z : ◌≡◌ {A = Option (FileLogInner C × Env Disk)} none (some r) = rw q at h in cc
  ]

  run-Synced :
      (cs : List (Call C)) (s s' : FileLogInner C) (w w' : Env Disk)
      → Synced C json s w.disk
      → run C json cs s w ≡ some (s', w')
      → Synced C json s' w'.disk × (Memory.run C cs (in_memory C s) ≡ some (in_memory C s'))
  unfolding run Memory.run
  run-Synced [] s s' w w' h e = (
    of_some (λ (p : FileLogInner C × Env Disk). Synced C json p.0 p.1.disk) e h,
    of_some (λ (p : FileLogInner C × Env Disk). some (in_memory C s) ≡ some (in_memory C p.0)) e
        refl,
  )
  run-Synced (c ∷ cs) s s' w w' h e =
      let (a, p, q, k) = then_run-some (run C json cs) (step C json c s w) (s', w') e in
      let (y, m) =
        run-Synced cs a.inner s' a.env w' (after-Synced c s a (step-Left C json c s w a p h) q) k in
      let f : Memory.step C c (in_memory C s) ≡ some (in_memory C a.inner) =
        sym (step-Memory C json c s w) ∙ ap (memory_after C) p in
      (y, rw f m)

  -- Calls that all returned `Ok`, under whatever faults, from a directory that holds the store: the
  -- directory reopens to the store that they left, and that is the one the memory store computes.
  pub run-Reopens :
      (cs : List (Call C)) (s s' : FileLogInner C) (w w' : Env Disk)
      → Synced C json s w.disk
      → run C json cs s w ≡ some (s', w')
      → Reopens C json w'.disk s' × (Memory.run C cs (in_memory C s) ≡ some (in_memory C s'))
  run-Reopens cs s s' w w' h e =
      let (y, m) = run-Synced cs s s' w w' h e in (reopens s' w'.disk y, m)
