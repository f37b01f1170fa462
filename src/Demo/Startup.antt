-- ===== src/Demo/Startup.antt =====
-- crates/multiraft-demo/src/main.rs: how `run_node` creates its groups, and waits for their
-- leaders.
pub mod Retries
pub mod Deadline
use bf_multiraft.Base.{
  ℕ, zero, suc, Bool, true, false, Option, none, some, List, [], ◌∷◌, leb, if◌then◌else◌,
}
use bf_multiraft.Fsm.{Result, ok, err}
use bf_multiraft.Core.{MultiRaftError}
use bf_multiraft.Facade.{MultiRaft, ClusterGlue, InitOutcome, Created, create_group}

-- What the environment decides for a group in one attempt: what its start gives, if it does not
-- run, and what openraft's `initialize` gives.
abbrev pub Chance : Type 0
Chance = Result MultiRaftError (Unit {0}) × InitOutcome

-- The node after some calls, with the group whose creation failed, if any.
abbrev pub Tried : Type 0
Tried = Option (ℕ × MultiRaftError) × MultiRaft × ClusterGlue

abbrev pub or_fail : ℕ → Result MultiRaftError (Unit {0}) → MultiRaft → ClusterGlue → Tried → Tried
or_fail gid (ok u) node glue rest = rest
or_fail gid (err e) node glue rest = (some (gid, e), node, glue)

-- One attempt: the groups in turn, up to the first that fails.
unfoldable pub create_each : List ℕ → (ℕ → Chance) → List ℕ → MultiRaft → ClusterGlue → Tried
create_each members chance [] node glue = (none, node, glue)
create_each members chance (gid ∷ gids) node glue =
    let c = create_group (chance gid).0 (chance gid).1 gid members node glue in
    or_fail gid c.result c.node c.glue (create_each members chance gids c.node c.glue)

abbrev pub next_attempt : Tried → (MultiRaft → ClusterGlue → Tried) → Tried
next_attempt (none, node, glue) retry = (none, node, glue)
next_attempt (some (gid, e), node, glue) retry = retry node glue

-- The attempts that are left, from attempt `k` on; the last error is the result.
unfoldable pub create_with_retries :
    List ℕ → (ℕ → ℕ → Chance) → List ℕ → ℕ → ℕ → MultiRaft → ClusterGlue → Tried
create_with_retries members chance gids zero k node glue =
    create_each members (chance k) gids node glue
create_with_retries members chance gids (suc left) k node glue =
    next_attempt (create_each members (chance k) gids node glue)
      (create_with_retries members chance gids left (suc k))

-- The twenty attempts of `run_node`.
unfoldable pub create_groups : List ℕ → (ℕ → ℕ → Chance) → List ℕ → MultiRaft → ClusterGlue → Tried
create_groups members chance gids = create_with_retries members chance gids 19 1

-- The inner loop of `wait_local_sees_leaders` from round `k` on, for one group: `sees k` tells
-- whether the node knows a leader in that round. It gives the round after the wait, if it sees one
-- in time; the outer `none` means that fuel ran out.
unfoldable pub wait_group : ℕ → ℕ → ℕ → (ℕ → ℕ) → (ℕ → Bool) → Option (Option ℕ)
wait_group zero k deadline clock sees = none
wait_group (suc fuel) k deadline clock sees =
    let rest = wait_group fuel (suc k) deadline clock sees in
    if sees k then some (some k) else if leb deadline (clock k) then some none else rest

abbrev pub wait_next : Option (Option ℕ) → (ℕ → Option Bool) → Option Bool
wait_next none next = none
wait_next (some none) next = some false
wait_next (some (some k)) next = next k

-- The groups in turn, under one deadline; `sees gid k` is what the node shows of the group in round
-- `k`. The result tells whether the node has seen a leader of each.
unfoldable pub wait_local_sees_leaders : ℕ → ℕ → ℕ → (ℕ → ℕ) → (ℕ → ℕ → Bool) → List ℕ → Option Bool
wait_local_sees_leaders fuel k deadline clock sees [] = some true
wait_local_sees_leaders fuel k deadline clock sees (gid ∷ gids) =
    wait_next (wait_group fuel k deadline clock (sees gid))
      λ k'. wait_local_sees_leaders fuel k' deadline clock sees gids
