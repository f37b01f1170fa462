-- ===== src/Log/File/Calm.antt =====
-- On a disk without faults the file store does all that the memory store does, and keeps it.
use bf_multiraft.Base.{
  ◌≡◌, refl, sym, ap, subst, ◌∙◌, inl, inr, Option, Option-cases, Bool-cases, none, some, List, [],
  ◌∷◌, Bytes,
}
use bf_multiraft.OrdMap.{values}
use bf_multiraft.Io.{IoResult, ok, continue, Env, calm}
use bf_multiraft.Codec.{Codec}
use bf_multiraft.RaftTypes.{RaftTypes}
use bf_multiraft.Log.Memory.{
  Call, saves_committed, saves_vote, appends, truncates, purges, option_le,
}
use bf_multiraft.Log.Memory
use bf_multiraft.Log.File.{
  Disk, JsonFile, hard_state_json, log_json, FileLogInner, Codecs, After, step, run,
  atomic_write_json, hard_of, persist_hard_state, persist_log, persist_all, save_committed,
  save_vote, append, truncate_after, purge,
}
use bf_multiraft.Log.File.Refines.{in_memory, memory_after, step-Memory}
use bf_multiraft.Log.File.Synced.{Synced, Reopens}
use bf_multiraft.Log.File.Recovery.{run-Reopens}

-- Every value of the type has a JSON text.
abbrev pub Encodes : {A : Type 0} → Codec A → Type 0
Encodes {A} codec = (a : A) → (b : Bytes) × (codec.to_vec a ≡ some b)

-- An operation that succeeded and left no fault behind.
abbrev Succeeds : IoResult (Unit {0}) × Env Disk → Type 0
Succeeds r = (r.0 ≡ ok tt) × (r.1.pending ≡ [])

atomic_write_json-Succeeds :
    {A : Type 0} (codec : Codec A) (f : JsonFile) (value : A) (d : Disk)
    → Encodes codec
    → Succeeds (atomic_write_json codec f value (calm d))
unfolding atomic_write_json
atomic_write_json-Succeeds codec hard_state_json value d enc =
    let (b, q) = enc value in rw q (refl, refl)
atomic_write_json-Succeeds codec log_json value d enc = let (b, q) = enc value in rw q (refl, refl)

module _ (C : RaftTypes) (json : Codecs C) (hard : Encodes json.hard_state)
    (entries : Encodes json.entries) where
  log_next :
      (s : FileLogInner C) (x : IoResult (Unit {0}) × Env Disk)
      → Succeeds x
      → Succeeds (continue x.0 (λ _. persist_log C json s) x.1)
  unfolding persist_log
  log_next s (r, w) (q, p) =
      subst (λ t. Succeeds (continue t (λ _. persist_log C json s) w)) (sym q)
        (subst (λ l. Succeeds (persist_log C json s (record { disk = w.disk; pending = l })))
          (sym p) (atomic_write_json-Succeeds json.entries log_json (values s.log) w.disk entries))

  persist_all-Succeeds : (s : FileLogInner C) (d : Disk) → Succeeds (persist_all C json s (calm d))
  unfolding persist_all persist_hard_state persist_log
  persist_all-Succeeds s d =
      log_next s (persist_hard_state C json s (calm d))
        (atomic_write_json-Succeeds json.hard_state hard_state_json (hard_of C json s) d hard)

  abbrev Succeeded : Option (After C) → Type 0
  Succeeded none = Unit
  Succeeded (some a) = Succeeds (a.result, a.env)

  step-Succeeded :
      (c : Call C) (s : FileLogInner C) (d : Disk) → Succeeded (step C json c s (calm d))
  unfolding step save_committed save_vote append truncate_after purge persist_hard_state persist_log
  step-Succeeded (saves_committed id) s d = atomic_write_json-Succeeds _ _ _ d hard
  step-Succeeded (saves_vote v) s d = atomic_write_json-Succeeds _ _ _ d hard
  step-Succeeded (appends es) s d = persist_all-Succeeds _ d
  step-Succeeded (truncates id) s d = atomic_write_json-Succeeds _ _ _ d entries
  step-Succeeded (purges id) s d = elim (Bool-cases (option_le C s.last_purged_log_id id)) [
    | inl h ↦ rw h (persist_all-Succeeds _ d)
    | inr h ↦ rw h tt
  ]

  run_calm :
      (cs : List (Call C)) (s : FileLogInner C) (t : Memory.LogStoreInner C) (d : Disk)
      → Memory.run C cs (in_memory C s) ≡ some t
      → (s' : FileLogInner C) × (d' : Disk) × (run C json cs s (calm d) ≡ some (s', calm d'))
  unfolding run Memory.run
  run_calm [] s t d h = (s, d, refl)
  run_calm (c ∷ cs) s t d h = elim (Option-cases (step C json c s (calm d))) [
    | inl q ↦ absurd (none_run (sym (step-Memory C json c s (calm d)) ∙ ap (memory_after C) q) h)
    | inr (a, q) ↦
        let (r, p) = subst Succeeded q (step-Succeeded c s d) in
        let f : Memory.step C c (in_memory C s) ≡ some (in_memory C a.inner) =
          sym (step-Memory C json c s (calm d)) ∙ ap (memory_after C) q in
        let (s', d', g) = run_calm cs a.inner t a.env.disk (rw f at h) in (s', d', rw (q, r, p) g)
  ]
    where
      none_run :
          Memory.step C c (in_memory C s) ≡ none
          → Memory.run C (c ∷ cs) (in_memory C s) ≡ some t
          → ⊥
      none_run e f =
          let z : ◌≡◌ {A = Option (Memory.LogStoreInner C)} none (some t) = rw e at f in cc

  -- From a directory that holds the store, on a disk without faults: whenever the memory store runs
  -- the calls without a panic, the file store runs them too, ends in the same state, and its
  -- directory reopens to that state.
  pub run-Succeeds :
      (cs : List (Call C)) (s : FileLogInner C) (t : Memory.LogStoreInner C) (d : Disk)
      → Synced C json s d
      → Memory.run C cs (in_memory C s) ≡ some t
      → (s' : FileLogInner C) × (d' : Disk) × (run C json cs s (calm d) ≡ some (s', calm d'))
        × (in_memory C s' ≡ t)
        × Reopens C json d' s'
  run-Succeeds cs s t d y h =
      let (s', d', g) = run_calm cs s t d h in
      let (o, m) = run-Reopens C json cs s s' (calm d) (calm d') y g in
      (s', d', g, some-eq (sym m ∙ h), o)
    where
      some-eq : {a b : Memory.LogStoreInner C} → some a ≡ some b → a ≡ b
      some-eq e = cc
