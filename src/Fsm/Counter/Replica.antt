-- ===== src/Fsm/Counter/Replica.antt =====
-- The counter meets the laws of replication: a replica restored from a snapshot cannot be told from
-- the one that wrote it.
use bf_multiraft.Base.{
  ℕ, ◌≡◌, refl, false, Option-cases, [], arith, ◌==◌, contains, inl, inr, Bytes,
}
use bf_multiraft.OrdMap.{insert, lookup-insert}
use bf_multiraft.Fsm.{Restorable, ok}
use bf_multiraft.Fsm.Counter.{
  Cmd, CounterFsm, value, seen_keys, apply_cmd, Serde, apply, snapshot, restore, collect_set,
  counter, encode_add,
}
use bf_multiraft.Fsm.Counter.Value.{value-apply_cmd, contains-apply_cmd, contains-collect_set}

-- The two hold the same value for a group, and have seen the same keys.
pub record SameGroup (group : ℕ) (s t : CounterFsm) : Type 0 where
  pub value_eq : value s group ≡ value t group
  pub keys_eq : (k : ℕ) → contains (seen_keys s group) k ≡ contains (seen_keys t group) k

SameGroup-apply_cmd :
    (group : ℕ) (cmd : Cmd) (s t : CounterFsm)
    → SameGroup group s t
    → SameGroup group (apply_cmd group cmd s) (apply_cmd group cmd t)
SameGroup-apply_cmd group cmd s t h = record {
  value_eq = ground (
    arith,
    value-apply_cmd group cmd s group,
    value-apply_cmd group cmd t group,
    h.value_eq,
    h.keys_eq cmd.idem,
  );
  keys_eq = λ k. ground (
    arith,
    contains-apply_cmd group cmd s group k,
    contains-apply_cmd group cmd t group k,
    h.keys_eq k,
  );
}

module _ (serde : Serde) where
  -- A command that was encoded is decoded to itself and applied, whatever the log index.
  pub apply-encode_add :
      (group index delta idem : ℕ) (s : CounterFsm)
      → apply serde group index (encode_add serde delta idem) s
        ≡ (ok (record { effects = [] }), apply_cmd group (record { idem = idem; delta = delta }) s)
  unfolding apply encode_add
  apply-encode_add group index delta idem s =
      rw (serde.cmd.round_trip (record { idem = idem; delta = delta }), apply)

  -- What the group of `s` is in `t` after a restore.
  abbrev restored : ℕ → CounterFsm → CounterFsm → CounterFsm
  restored group s t = record {
    values = insert group (value s group) t.values;
    seen = insert group (collect_set (serde.iter_order (seen_keys s group))) t.seen;
  }

  restored-SameGroup : (group : ℕ) (s t : CounterFsm) → SameGroup group s (restored group s t)
  unfolding value
  restored-SameGroup group s t = record {
    value_eq = ground (arith, lookup-insert group group (value s group) t.values);
    keys_eq = λ k. ground (
      arith,
      lookup-insert group group (collect_set (serde.iter_order (seen_keys s group))) t.seen,
      contains-collect_set (serde.iter_order (seen_keys s group)) k,
      serde.contains-iter_order (seen_keys s group) k,
    );
  }

  restored_elsewhere :
      (group : ℕ) (s t : CounterFsm) (other : ℕ)
      → (group == other) ≡ false
      → SameGroup other t (restored group s t)
  unfolding value
  restored_elsewhere group s t other h = record {
    value_eq = ground (arith, lookup-insert group other (value s group) t.values);
    keys_eq = λ k. ground (
      arith,
      lookup-insert group other (collect_set (serde.iter_order (seen_keys s group))) t.seen,
    );
  }

  -- Restoring a snapshot of a group gives the group's value and keys back, in any counter, and
  -- leaves the other groups of that counter alone.
  pub restore-snapshot :
      (group : ℕ) (s t : CounterFsm) (b : Bytes)
      → snapshot serde group s ≡ ok b
      → ((restore serde group b t).0 ≡ ok tt)
        × SameGroup group s (restore serde group b t).1
        × ((other : ℕ) → (group == other) ≡ false → SameGroup other t (restore serde group b t).1)
  unfolding snapshot restore
  restore-snapshot group s t b h =
      let q : serde.state.to_vec (value s group, serde.iter_order (seen_keys s group)) ≡ b = cc in
      rw (← q, serde.state.round_trip, restore)
        (refl, restored-SameGroup group s t, restored_elsewhere group s t)

  pub apply-SameGroup :
      (group index : ℕ) (command : Bytes) (s t : CounterFsm)
      → SameGroup group s t
      → ((apply serde group index command s).0 ≡ (apply serde group index command t).0)
        × SameGroup group
            (apply serde group index command s).1
            (apply serde group index command t).1
  unfolding apply
  apply-SameGroup group index command s t h = elim (Option-cases (serde.cmd.from_slice command)) [
    | inl e ↦ rw (e, apply) (refl, h)
    | inr (cmd, e) ↦ rw (e, apply) (refl, SameGroup-apply_cmd group cmd s t h)
  ]

  -- The counter as a state machine that can be replicated.
  abbrev pub counter_restorable : Restorable (counter serde)
  counter_restorable = record {
    Same = SameGroup;
    Same-restore = λ g s t b h. ((restore-snapshot g s t b h).0, (restore-snapshot g s t b h).1);
    Same-apply = apply-SameGroup;
  }
