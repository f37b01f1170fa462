-- ===== src/Log/File/Synced.antt =====
-- What a directory holds: the store that `open` reads from it.
use bf_multiraft.Base.{
  ℕ, suc, ◌≤◌, ◌<◌, ◌≡◌, refl, ap, sym, ◌∙◌, Option, none, some, List, [], ◌∷◌, ◌++◌, arith, Bytes,
  Option-cases, inl, inr, append_assoc, append-nil,
}
use bf_multiraft.OrdMap.{OrdMap, insert, values}
use bf_multiraft.OrdMap.Order.{Above}
use bf_multiraft.Io.{IoResult, ok, err, invalid_data, calm}
use bf_multiraft.RaftTypes.{RaftTypes}
use bf_multiraft.Log.Memory.{insert_entries}
use bf_multiraft.Log.Memory.Invariant.{Keyed, IsLog}
use bf_multiraft.Log.File.{
  Disk, HardState, FileLogInner, Codecs, load_hard_state, load_log, open_store, hard_of, ok_or,
}

module _ {V : Type 0} where
  -- Every key is under the bound.
  abbrev Under : ℕ → OrdMap V → Type 0
  Under n [] = Unit
  Under n ((k, v) ∷ m) = (k < n) × Under n m

  insert_last : (m : OrdMap V) (k : ℕ) (v : V) → Under k m → insert k v m ≡ m ++ (k, v) ∷ []
  unfolding insert
  insert_last [] k v u = refl
  insert_last ((j, w) ∷ m) k v u = ground (arith, insert_last m k v u.1)

  Under-snoc : (m : OrdMap V) (k n : ℕ) (v : V) → Under k m → k < n → Under n (m ++ (k, v) ∷ [])
  Under-snoc [] k n v u h = (h, tt)
  Under-snoc ((j, w) ∷ m) k n v u h = (omega arith, Under-snoc m k n v u.1 h)

  Under-weaken : (m : OrdMap V) (k n : ℕ) → k ≤ n → Under k m → Under n m
  Under-weaken [] k n h u = tt
  Under-weaken ((j, w) ∷ m) k n h u = (omega arith, Under-weaken m k n h u.1)

module _ (C : RaftTypes) where
  reload_onto :
      (pre m : OrdMap C.Entry) (n : ℕ)
      → Under n pre
      → Above n m
      → Keyed C m
      → insert_entries C (values m) pre ≡ pre ++ m
  unfolding insert_entries
  reload_onto pre [] n u a k = sym (append-nil pre)
  reload_onto pre ((j, e) ∷ m) n u a k =
      let u' : Under j pre = Under-weaken pre n j a.0 u in
      ap (λ i. insert_entries C (values m) (insert i e pre)) k.0
      ∙ ap (insert_entries C (values m)) (insert_last pre j e u')
      ∙ reload_onto (pre ++ (j, e) ∷ []) m (suc j) (Under-snoc pre j (suc j) e u' (omega arith)) a.1
          k.1
      ∙ append_assoc pre ((j, e) ∷ []) m

  -- Loading the entries that a log was saved as gives the log.
  pub reload : (m : OrdMap C.Entry) → IsLog C m → insert_entries C (values m) [] ≡ m
  reload m h = reload_onto [] m 0 tt h.ascending h.keyed

module _ (C : RaftTypes) (json : Codecs C) where
  -- What the two files say.
  unfoldable pub hard_read : Option Bytes → IoResult (HardState C)
  hard_read none = ok (record { last_purged_log_id = none; committed = none; vote = none })
  hard_read (some b) = ok_or (json.hard_state.from_slice b) invalid_data

  abbrev log_of : Option (List C.Entry) → IoResult (OrdMap C.Entry)
  log_of none = err invalid_data
  log_of (some es) = ok (insert_entries C es [])

  unfoldable pub log_read : Option Bytes → IoResult (OrdMap C.Entry)
  log_read none = ok []
  log_read (some b) = log_of (json.entries.from_slice b)

  -- The files hold this store.
  pub record Synced (s : FileLogInner C) (d : Disk) : Type 0 where
    pub hard : hard_read d.hard_state ≡ ok (hard_of C json s)
    pub log : log_read d.log ≡ ok s.log
    pub is_log : IsLog C s.log

  -- Opening the directory, with no fault, gives this store.
  abbrev pub Reopens : Disk → FileLogInner C → Type 0
  Reopens d s = (open_store C json (calm d)).0 ≡ ok s

  load_hard_state-read :
      (d : Disk) → load_hard_state C json (calm d) ≡ (hard_read d.hard_state, calm d)
  unfolding load_hard_state hard_read
  load_hard_state-read d = elim (Option-cases d.hard_state) [
    | inl e ↦ rw e refl
    | inr (b, e) ↦ rw e refl
  ]

  load_log-read : (d : Disk) → load_log C json (calm d) ≡ (log_read d.log, calm d)
  unfolding load_log log_read
  load_log-read d = elim (Option-cases d.log) [
    | inl e ↦ rw e refl
    | inr (b, e) ↦ elim (Option-cases (json.entries.from_slice b)) [
      | inl f ↦ rw (e, f) refl
      | inr (es, f) ↦ rw (e, f) refl
    ]
  ]

  pub open_store-Synced : (s : FileLogInner C) (d : Disk) → Synced s d → Reopens d s
  unfolding open_store
  open_store-Synced s d h = rw (load_hard_state-read d, h.hard, load_log-read d, h.log) refl
