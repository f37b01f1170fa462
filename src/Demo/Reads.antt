-- ===== src/Demo/Reads.antt =====
-- crates/multiraft-demo/src/main.rs: the reads of a group's value. An `i64` is its bit pattern.
pub mod Confirmed
pub mod Largest
pub mod Answers
use bf_multiraft.Base.{
  ℕ, ◌+◌, ◌%◌, ◌^◌, Bool, true, false, not, Option, none, some, List, [], ◌∷◌, contains, ltb,
  if◌then◌else◌,
}
use bf_multiraft.Fsm.{Result, ok, err}
use bf_multiraft.Fsm.Counter.{CounterFsm, value}
use bf_multiraft.Core.{MultiRaftError}
use bf_multiraft.Facade.Requests
use bf_multiraft.Facade.Requests.{RaftApi}
use bf_multiraft.Demo.Nodes.{
  Status, not_found, service_unavailable, Node, DemoState, on_node, leads, and_node, first_leader,
}

pub data Consistency : Type 0 where
  linearizable local : Consistency

pub record GroupValueResp : Type 0 where
  pub group : ℕ
  pub value : ℕ
  pub leader : Option ℕ
  pub consistency : Consistency
  pub stale : Option Bool

-- The place of a bit pattern in the order of the numbers that they stand for, and `i64::max`.
abbrev pub rank : ℕ → ℕ
rank v = (v + 2 ^ 63) % 2 ^ 64

abbrev pub max_i64 : ℕ → ℕ → ℕ
max_i64 b v = if ltb (rank b) (rank v) then v else b

module _ (A : RaftApi CounterFsm) where
  abbrev pub read_on : ℕ → Node A → Result MultiRaftError ℕ × Node A
  read_on group = on_node A (Requests.read_linearizable A group (λ fsm. value fsm group))

  -- An error of any kind leaves the read to the next node.
  abbrev pub or_next :
      Result MultiRaftError ℕ × Node A
      → List (Node A)
      → Option ℕ × List (Node A)
      → Option ℕ × List (Node A)
  or_next (ok v, n) ns rest = (some v, n ∷ ns)
  or_next (err e, n) ns rest = and_node A n rest

  unfoldable pub read_first : (Node A → Bool) → ℕ → List (Node A) → Option ℕ × List (Node A)
  read_first visits group [] = (none, [])
  read_first visits group (n ∷ ns) =
      let rest = read_first visits group ns in
      if visits n then or_next (read_on group n) ns rest else and_node A n rest

  abbrev pub local_value : ℕ → Node A → Option ℕ
  local_value group n = Requests.with_fsm A group (λ fsm. value fsm group) n.groups

  abbrev pub better : Option ℕ → Option ℕ → Option ℕ
  better best none = best
  better none (some v) = some v
  better (some b) (some v) = some (max_i64 b v)

  -- The loop over the local state machines; `best` is the largest value so far.
  unfoldable pub read_local : ℕ → Option ℕ → List (Node A) → Option ℕ
  read_local group best [] = best
  read_local group best (n ∷ ns) = read_local group (better best (local_value group n)) ns

  abbrev pub found : Option ℕ → Result (Unit {0}) (ℕ × Consistency)
  found none = err tt
  found (some v) = ok (v, local)

  abbrev pub or_local :
      ℕ → Option ℕ × List (Node A) → Result (Unit {0}) (ℕ × Consistency) × List (Node A)
  or_local group (some v, ns) = (ok (v, linearizable), ns)
  or_local group (none, ns) = (found (read_local group none ns), ns)

  abbrev pub or_any :
      ℕ → Option ℕ × List (Node A) → Result (Unit {0}) (ℕ × Consistency) × List (Node A)
  or_any group (some v, ns) = (ok (v, linearizable), ns)
  or_any group (none, ns) = or_local group (read_first (λ n. true) group ns)

  unfoldable pub read_group_value_best_effort :
      ℕ → List (Node A) → Result (Unit {0}) (ℕ × Consistency) × List (Node A)
  read_group_value_best_effort group ns = or_any group (read_first (leads A group) group ns)

  abbrev pub value_resp : ℕ → Option ℕ → ℕ × Consistency → GroupValueResp
  value_resp id leader (v, linearizable) = record {
    group = id;
    value = v;
    leader = leader;
    consistency = linearizable;
    stale = none;
  }
  value_resp id leader (v, local) = record {
    group = id;
    value = v;
    leader = leader;
    consistency = local;
    stale = some true;
  }

  abbrev pub value_answer :
      ℕ → Option ℕ → Result (Unit {0}) (ℕ × Consistency) → Result Status GroupValueResp
  value_answer id leader (ok found) = ok (value_resp id leader found)
  value_answer id leader (err u) = err service_unavailable

  unfoldable pub group_value : ℕ → DemoState A → Result Status GroupValueResp × DemoState A
  group_value id s =
      let (r, ns) = read_group_value_best_effort id s.nodes in
      if not (contains s.group_ids id)
      then (err not_found, s)
      else (value_answer id (first_leader A id s.nodes) r, record s { nodes = ns })
