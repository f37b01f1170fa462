-- ===== src/Log/Memory/Invariant.antt =====
-- The memory store's log is a map: its keys ascend, and each is the index of its entry.
use bf_multiraft.Base.{
  ℕ, suc, ◌≤◌, ◌≡◌, refl, Bool, some, List, [], ◌∷◌, ◌==◌, arith, sym, subst, of_some, last?,
  Bool-cases, inl, inr,
}
use bf_multiraft.OrdMap.{OrdMap, Bound, lookup, insert, select, values}
use bf_multiraft.OrdMap.Order.{Above, insert-Above, select-Above}
use bf_multiraft.RaftTypes.{RaftTypes}
use bf_multiraft.Log.Memory.{
  LogStoreInner, Call, saves_committed, saves_vote, appends, truncates, purges, step, get_log_state,
  save_committed, save_vote, insert_entries, append, truncate_after, purge, remove_range,
}
use bf_multiraft.Log.Memory.Contents.{entry_at, purge-eq, remove_range-eq-select}

module _ (C : RaftTypes) where
  -- Each entry stands under its own index.
  abbrev pub Keyed : OrdMap C.Entry → Type 0
  Keyed [] = Unit
  Keyed ((k, e) ∷ m) = (C.entry_index e ≡ k) × Keyed m

  pub record IsLog (m : OrdMap C.Entry) : Type 0 where
    pub ascending : Above 0 m
    pub keyed : Keyed m

  insert-Keyed : (e : C.Entry) (m : OrdMap C.Entry) → Keyed m → Keyed (insert (C.entry_index e) e m)
  unfolding insert
  insert-Keyed e [] h = (refl, tt)
  insert-Keyed e ((k, f) ∷ m) h = ground (arith, insert-Keyed e m)

  select-Keyed : (p : ℕ → Bool) (m : OrdMap C.Entry) → Keyed m → Keyed (select p m)
  unfolding select
  select-Keyed p [] h = tt
  select-Keyed p ((k, f) ∷ m) h = ground (arith, select-Keyed p m)

  pub insert_entries-IsLog :
      (es : List C.Entry) (m : OrdMap C.Entry) → IsLog m → IsLog (insert_entries C es m)
  unfolding insert_entries
  insert_entries-IsLog [] m h = h
  insert_entries-IsLog (e ∷ es) m h =
      insert_entries-IsLog es (insert (C.entry_index e) e m) (record {
        ascending = insert-Above 0 (C.entry_index e) e m (omega arith) h.ascending;
        keyed = insert-Keyed e m h.keyed;
      })

  pub select-IsLog : (p : ℕ → Bool) (m : OrdMap C.Entry) → IsLog m → IsLog (select p m)
  select-IsLog p m h = record {
    ascending = select-Above 0 p m h.ascending;
    keyed = select-Keyed p m h.keyed;
  }

  pub remove_range-IsLog :
      (lo hi : Bound) (m : OrdMap C.Entry) → IsLog m → IsLog (remove_range C lo hi m)
  remove_range-IsLog lo hi m h = rw remove_range-eq-select (select-IsLog _ m h)

  -- Every call that returns keeps the log a map from indices to their entries.
  pub step-IsLog :
      (c : Call C) (s s' : LogStoreInner C) → step C c s ≡ some s' → IsLog s.log → IsLog s'.log
  unfolding step save_committed save_vote append truncate_after purge
  step-IsLog (saves_committed id) s s' e h = of_some (λ (t : LogStoreInner C). IsLog t.log) e h
  step-IsLog (saves_vote v) s s' e h = of_some (λ (t : LogStoreInner C). IsLog t.log) e h
  step-IsLog (appends es) s s' e h =
      of_some (λ (t : LogStoreInner C). IsLog t.log) e (insert_entries-IsLog es s.log h)
  step-IsLog (truncates id) s s' e h =
      of_some (λ (t : LogStoreInner C). IsLog t.log) e (remove_range-IsLog _ _ s.log h)
  step-IsLog (purges id) s s' e h =
      subst (λ (t : LogStoreInner C). IsLog t.log) (sym (purge-eq C id s s' e))
        (remove_range-IsLog _ _ s.log h)

  -- A key that is present is not under the bound.
  key_of : (m : OrdMap C.Entry) (n i : ℕ) (e : C.Entry) → Above n m → lookup i m ≡ some e → n ≤ i
  unfolding lookup
  key_of [] n i e a h = cc
  key_of ((j, f) ∷ m) n i e a h = ground (arith, key_of m (suc j) i e a.1)

  -- The last entry of a log has the greatest index.
  last_greatest :
      (m : OrdMap C.Entry) (n i : ℕ) (e : C.Entry)
      → Above n m
      → Keyed m
      → lookup i m ≡ some e
      → (f : C.Entry) × (last? (values m) ≡ some f)
        × (lookup (C.entry_index f) m ≡ some f)
        × (i ≤ C.entry_index f)
  unfolding lookup
  last_greatest [] n i e a k h = cc
  last_greatest ((j, f) ∷ []) n i e a k h = (f, refl, ground arith, ground arith)
  last_greatest ((j, f) ∷ (j', f') ∷ m) n i e a k h = elim (Bool-cases (j == i)) [
    | inl same ↦
        let (g, q, at, le) = last_greatest ((j', f') ∷ m) (suc j) j' f' a.1 k.1 (ground arith) in
        (g, q, ground arith, ground arith)
    | inr other ↦
        let (g, q, at, le) = last_greatest ((j', f') ∷ m) (suc j) i e a.1 k.1 (ground arith) in
        (g, q, ground (arith, key_of ((j', f') ∷ m) (suc j) (C.entry_index g) g a.1), le)
  ]

  -- If the log holds an entry at all, `get_log_state` reports the log id of one of its entries, and
  -- no index that is present lies above it.
  pub get_log_state-greatest :
      (s : LogStoreInner C) (i : ℕ) (e : C.Entry)
      → IsLog s.log
      → entry_at C s i ≡ some e
      → (f : C.Entry) × ((get_log_state C s).last_log_id ≡ some (C.log_id f))
        × (entry_at C s (C.index (C.log_id f)) ≡ some f)
        × (i ≤ C.index (C.log_id f))
  unfolding get_log_state
  get_log_state-greatest s i e h p =
      let (f, q, at, le) = last_greatest s.log 0 i e h.ascending h.keyed p in
      (f, rw q refl, rw C.index-log_id at, rw C.index-log_id le)
