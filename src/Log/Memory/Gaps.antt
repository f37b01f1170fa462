-- ===== src/Log/Memory/Gaps.antt =====
-- A log without gaps: what openraft may rely on when it calls the memory store by its contract.
use bf_multiraft.Base.{
  ℕ, suc, ◌+◌, ◌<◌, ◌≤◌, ◌≡◌, refl, ◌∙◌, sym, subst, of_some, Bool, true, false, not, Bool-cases,
  inl, inr, ◌==◌, ◌&&◌, Option, none, some, List, [], ◌∷◌, leb, ltb, arith, length,
}
use bf_multiraft.OrdMap.{OrdMap, unbounded, included, lookup, insert, select}
use bf_multiraft.RaftTypes.{RaftTypes}
use bf_multiraft.Log.Memory.{
  LogStoreInner, Call, saves_committed, saves_vote, appends, truncates, purges, step,
  save_committed, save_vote, append, insert_entries, truncate_after, purge, remove_range,
}
use bf_multiraft.Log.Memory.Contents.{
  entry_at, Fits, remove_range-eq-select, truncated-eq-select, purged-eq-select, purge-eq,
}

module _ {V : Type 0} where
  -- The keys are the numbers from `n` on, each once.
  abbrev pub Run : ℕ → OrdMap V → Type 0
  Run n [] = Unit
  Run n ((k, v) ∷ m) = (k ≡ n) × Run (suc n) m

  insert-Run :
      (n k : ℕ) (v : V) (m : OrdMap V)
      → k ≡ n + length m
      → Run n m
      → Run n (insert k v m) × (length (insert k v m) ≡ suc (length m))
  unfolding insert
  insert-Run n k v [] h r = ((omega arith, tt), refl)
  insert-Run n k v ((j, w) ∷ m) h r = ground (arith, insert-Run (suc n) k v m (omega arith) r.1)

  select_past : (n i : ℕ) (m : OrdMap V) → i < n → Run n m → select (λ j. leb j i) m ≡ []
  unfolding select
  select_past n i [] h r = refl
  select_past n i ((j, w) ∷ m) h r = ground (arith, select_past (suc n) i m (omega arith) r.1)

  select_after : (n i : ℕ) (m : OrdMap V) → i < n → Run n m → select (λ j. ltb i j) m ≡ m
  unfolding select
  select_after n i [] h r = refl
  select_after n i ((j, w) ∷ m) h r = ground (arith, select_after (suc n) i m (omega arith) r.1)

  select_none : (p : ℕ → Bool) (m : OrdMap V) → ((j : ℕ) → p j ≡ false) → select p m ≡ []
  unfolding select
  select_none p [] h = refl
  select_none p ((j, w) ∷ m) h = ground (arith, select_none p m h, h j)

  -- A prefix, and a suffix, of a run are runs.
  select_up_to-Run : (n i : ℕ) (m : OrdMap V) → Run n m → Run n (select (λ j. leb j i) m)
  unfolding select
  select_up_to-Run n i [] r = tt
  select_up_to-Run n i ((j, w) ∷ m) r =
      ground (arith, select_up_to-Run (suc n) i m r.1, select_past (suc n) i m)

  select_after-Run :
      (n i : ℕ) (m : OrdMap V) → n ≤ suc i → Run n m → Run (suc i) (select (λ j. ltb i j) m)
  unfolding select
  select_after-Run n i [] h r = tt
  select_after-Run n i ((j, w) ∷ m) h r = ground (
    arith,
    select_after-Run (suc n) i m,
    select_after (suc n) i m,
    (λ (e : n ≡ suc i). subst (λ b. Run b ((j, w) ∷ m)) e r),
  )

  lookup-Run :
      (n i : ℕ) (m : OrdMap V)
      → Run n m
      → n ≤ i
      → i < n + length m
      → (v : V) × (lookup i m ≡ some v)
  unfolding lookup
  lookup-Run n i [] r h l = absurd (omega arith)
  lookup-Run n i ((j, w) ∷ m) r h l = elim (Bool-cases (j == i)) [
    | inl here ↦ (w, rw here)
    | inr later ↦ rw later (lookup-Run (suc n) i m r.1 (ground arith) (omega arith))
  ]

module _ (C : RaftTypes) where
  -- The first index past the purged ones, and the first past the log.
  abbrev pub first_index : Option C.LogId → ℕ
  first_index none = 0
  first_index (some id) = suc (C.index id)

  abbrev pub end_index : LogStoreInner C → ℕ
  end_index s = first_index s.last_purged_log_id + length s.log

  pub record NoGaps (s : LogStoreInner C) : Type 0 where
    pub run : Run (first_index s.last_purged_log_id) s.log

  -- The entries are numbered from `n` on.
  abbrev pub Follows : ℕ → List C.Entry → Type 0
  Follows n [] = Unit
  Follows n (e ∷ es) = (C.entry_index e ≡ n) × Follows (suc n) es

  -- openraft's side of the contract: it appends right after the last entry, truncates at an index
  -- that is no `u64::MAX`, and purges no further back than it has purged.
  abbrev pub Allowed : Call C → LogStoreInner C → Type 0
  Allowed (saves_committed id) s = Unit
  Allowed (saves_vote v) s = Unit
  Allowed (appends es) s = Follows (end_index s) es
  Allowed (truncates id) s = Fits C id
  Allowed (purges id) s = first_index s.last_purged_log_id ≤ suc (C.index id)

  insert_entries-Run :
      (n : ℕ) (es : List C.Entry) (m : OrdMap C.Entry)
      → Follows (n + length m) es
      → Run n m
      → Run n (insert_entries C es m)
  unfolding insert_entries
  insert_entries-Run n [] m f r = r
  insert_entries-Run n (e ∷ es) m f r =
      let (r', l) = insert-Run n (C.entry_index e) e m f.0 r in
      insert_entries-Run n es (insert (C.entry_index e) e m)
        (let q : suc (n + length m) ≡ n + length (insert (C.entry_index e) e m) =
            omega (arith, l) in
          subst (λ b. Follows b es) q f.1)
        r'

  truncated_all : (log : OrdMap C.Entry) → remove_range C (included 0) unbounded log ≡ []
  truncated_all log =
      remove_range-eq-select C (included 0) unbounded log
      ∙ select_none (λ k. not (leb 0 k && true)) log (λ j. ground arith)

  -- A call that openraft may make leaves a log without gaps, from the index after the purged one.
  pub step-NoGaps :
      (c : Call C) (s s' : LogStoreInner C)
      → Allowed c s
      → step C c s ≡ some s'
      → NoGaps s
      → NoGaps s'
  unfolding step save_committed save_vote append truncate_after purge
  step-NoGaps (saves_committed id) s s' a e g = of_some NoGaps e (record { run = g.run })
  step-NoGaps (saves_vote v) s s' a e g = of_some NoGaps e (record { run = g.run })
  step-NoGaps (appends es) s s' a e g =
      of_some NoGaps e (record { run = insert_entries-Run _ es s.log a g.run })
  step-NoGaps (truncates none) s s' a e g =
      of_some NoGaps e (record { run = rw (truncated_all s.log) tt })
  step-NoGaps (truncates (some id)) s s' a e g =
      of_some NoGaps e
        (record { run = rw (truncated-eq-select C id s.log a) (select_up_to-Run _ _ s.log g.run) })
  step-NoGaps (purges id) s s' a e g =
      subst NoGaps (sym (purge-eq C id s s' e))
        (record { run = rw (purged-eq-select C id s.log) (select_after-Run _ _ s.log a g.run) })

  -- A log without gaps holds an entry at each index between the purged ones and its end.
  pub entry_at-NoGaps :
      (s : LogStoreInner C) (i : ℕ)
      → NoGaps s
      → first_index s.last_purged_log_id ≤ i
      → i < end_index s
      → (e : C.Entry) × (entry_at C s i ≡ some e)
  entry_at-NoGaps s i g h l = lookup-Run _ i s.log g.run h l
