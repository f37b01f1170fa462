-- ===== src/Fsm/Counter/Value.antt =====
-- What one command does to the value and to the keys of each group.
use bf_multiraft.Base.{
  ℕ, ◌≡◌, refl, Bool, not, ◌&&◌, ◌||◌, List, [], ◌∷◌, arith, ◌==◌, if◌then◌else◌, contains,
}
use bf_multiraft.OrdMap.{lookup, lookup-insert}
use bf_multiraft.Fsm.Counter.{
  Cmd, CounterFsm, add_i64, or_zero, value, seen_keys, insert_key, apply_cmd, collect_set,
}

module _ (group : ℕ) (cmd : Cmd) (s : CounterFsm) where
  -- The command counts for a group if it is sent to it with a key that the group has not seen.
  abbrev pub counts_for : ℕ → Bool
  counts_for g = (group == g) && not (contains (seen_keys s g) cmd.idem)

  pub value-apply_cmd :
      (g : ℕ)
      → value (apply_cmd group cmd s) g
        ≡ (if counts_for g then add_i64 (value s g) cmd.delta else value s g)
  unfolding apply_cmd value
  value-apply_cmd g =
      ground (
        arith,
        lookup-insert group g (add_i64 (or_zero (lookup group s.values)) cmd.delta) s.values,
      )

  pub contains-apply_cmd :
      (g k : ℕ)
      → contains (seen_keys (apply_cmd group cmd s) g) k
        ≡ (((group == g) && (cmd.idem == k)) || contains (seen_keys s g) k)
  unfolding apply_cmd contains
  contains-apply_cmd g k =
      ground (arith, lookup-insert group g (insert_key cmd.idem (seen_keys s group)).0 s.seen)

pub contains-collect_set : (ks : List ℕ) (k : ℕ) → contains (collect_set ks) k ≡ contains ks k
unfolding collect_set contains
contains-collect_set [] k = refl
contains-collect_set (j ∷ ks) k =
    ground (arith, contains-collect_set ks k, contains-collect_set ks j)
