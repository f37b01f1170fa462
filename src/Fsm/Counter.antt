-- ===== src/Fsm/Counter.antt =====
-- crates/multiraft-fsm/src/counter_fsm.rs: a counter for each group, with idempotency keys. An
-- `i64` is its bit pattern below 2 ^ 64, and `+=` wraps, as it does in a release build. A hash set
-- is a list without its order: where the source iterates over one, the order is a parameter.
pub mod Value
pub mod ExactlyOnce
pub mod Replica
use bf_multiraft.Base.{
  ℕ, ◌+◌, ◌%◌, ◌^◌, ◌≡◌, Bool, true, false, Option, none, some, List, [], ◌∷◌, Bytes, if◌then◌else◌,
  contains,
}
use bf_multiraft.OrdMap.{OrdMap, lookup, insert}
use bf_multiraft.Codec.{TotalCodec}
use bf_multiraft.Fsm.{Result, ok, err, ApplyOut, StateMachine}

pub record Cmd : Type 0 where
  pub idem : ℕ
  pub delta : ℕ

pub data CounterError : Type 0 where
  decode : CounterError

pub record CounterFsm : Type 0 where
  pub values : OrdMap ℕ
  pub seen : OrdMap (List ℕ)

abbrev pub new : CounterFsm
new = record { values = []; seen = [] }

-- `i64` addition.
abbrev pub add_i64 : ℕ → ℕ → ℕ
add_i64 a b = (a + b) % 2 ^ 64

abbrev pub or_zero : Option ℕ → ℕ
or_zero none = 0
or_zero (some v) = v

abbrev pub or_empty : Option (List ℕ) → List ℕ
or_empty none = []
or_empty (some s) = s

unfoldable pub value : CounterFsm → ℕ → ℕ
value s group = or_zero (lookup group s.values)

-- The idempotency keys of a group.
abbrev pub seen_keys : CounterFsm → ℕ → List ℕ
seen_keys s group = or_empty (lookup group s.seen)

-- `HashSet::insert`: the set, and whether the key is new to it.
abbrev pub insert_key : ℕ → List ℕ → List ℕ × Bool
insert_key k keys = if contains keys k then (keys, false) else (k ∷ keys, true)

-- What the command does once it is decoded.
unfoldable pub apply_cmd : ℕ → Cmd → CounterFsm → CounterFsm
apply_cmd group cmd s =
    let (keys, is_new) = insert_key cmd.idem (seen_keys s group) in
    record {
      values =
          if is_new
          then insert group (add_i64 (or_zero (lookup group s.values)) cmd.delta) s.values
          else s.values;
      seen = insert group keys s.seen;
    }

-- serde_json for commands and for snapshots, and the order in which a hash set is iterated over.
pub record Serde : Type 0 where
  pub cmd : TotalCodec Cmd
  pub state : TotalCodec (ℕ × List ℕ)
  pub iter_order : List ℕ → List ℕ
  pub contains-iter_order : (keys : List ℕ) (k : ℕ) → contains (iter_order keys) k ≡ contains keys k

-- `into_iter().collect()` into a set.
unfoldable pub collect_set : List ℕ → List ℕ
collect_set [] = []
collect_set (k ∷ ks) = (insert_key k (collect_set ks)).0

module _ (serde : Serde) where
  unfoldable pub encode_add : ℕ → ℕ → Bytes
  encode_add delta idem = serde.cmd.to_vec (record { idem = idem; delta = delta })

  unfoldable pub apply : ℕ → ℕ → Bytes → CounterFsm → Result CounterError ApplyOut × CounterFsm
  apply group _ command s = elim (serde.cmd.from_slice command) [
    | none ↦ (err decode, s)
    | some cmd ↦ (ok (record { effects = [] }), apply_cmd group cmd s)
  ]

  unfoldable pub snapshot : ℕ → CounterFsm → Result CounterError Bytes
  snapshot group s = ok (serde.state.to_vec (value s group, serde.iter_order (seen_keys s group)))

  unfoldable pub restore : ℕ → Bytes → CounterFsm → Result CounterError (Unit {0}) × CounterFsm
  restore group bytes s = elim (serde.state.from_slice bytes) [
    | none ↦ (err decode, s)
    | some (v, keys) ↦ (
      ok tt,
      record { values = insert group v s.values; seen = insert group (collect_set keys) s.seen },
    )
  ]

  -- `freeze_for_snapshot` is the trait's default.
  abbrev pub counter : StateMachine
  counter = record {
    State = CounterFsm;
    Error = CounterError;
    apply = apply;
    snapshot = snapshot;
    restore = restore;
    freeze_for_snapshot = snapshot;
  }
