-- ===== src/Facade.antt =====
-- crates/multiraft-net/src/multiraft.rs: the creation of groups, with the glue that nodes of one
-- process share, and the snapshot advertisements of a node.
pub mod Sets
pub mod InitOnce
pub mod Ads
pub mod Recovery
pub mod Handover
pub mod Requests
pub mod Leaders
pub mod Runtime
pub mod Spawn
pub mod Start
pub mod Tests
use bf_multiraft.Base.{
  ℕ, ◌≡◌, Bool, true, false, not, ◌&&◌, Option, none, some, List, [], ◌∷◌, ◌++◌, Bytes, contains,
  ◌==◌, bytes_eq, if◌then◌else◌, retain,
}
use bf_multiraft.OrdMap.{OrdMap, lookup, insert}
use bf_multiraft.Fsm.{Result, ok, err}
use bf_multiraft.Core.{
  ClusterConfig, NodeRole, voter, standby, MultiRaftError, other, unknown_group,
  SnapshotAdvertisement,
}

pub record ClusterGlue : Type 0 where
  -- The nodes that have created a group, and the groups whose initialization is claimed.
  pub ready : OrdMap (List ℕ)
  pub claimed_init : List ℕ

abbrev pub add : ℕ → List ℕ → List ℕ
add k set = if contains set k then set else k ∷ set

abbrev pub nodes_ready : ℕ → ClusterGlue → List ℕ
nodes_ready group glue = elim (lookup group glue.ready) [ none ↦ [] | some nodes ↦ nodes ]

unfoldable pub all_in : List ℕ → List ℕ → Bool
all_in [] set = true
all_in (m ∷ members) set = contains set m && all_in members set

unfoldable pub mark_ready : ℕ → ℕ → List ℕ → ClusterGlue → Bool × ClusterGlue
mark_ready group node_id members glue =
    let set = add node_id (nodes_ready group glue) in
    (all_in members set, record glue { ready = insert group set glue.ready })

unfoldable pub try_claim_init : ℕ → ClusterGlue → Bool × ClusterGlue
try_claim_init group glue = (
  not (contains glue.claimed_init group),
  record glue { claimed_init = add group glue.claimed_init },
)

-- What openraft's `initialize` gives.
pub data InitOutcome : Type 0 where
  initialized not_allowed init_failed : InitOutcome

unfoldable pub try_initialize : InitOutcome → Result MultiRaftError (Unit {0})
try_initialize initialized = ok tt
try_initialize not_allowed = ok tt
try_initialize init_failed = err other

pub data NetBackend : Type 0 where
  in_process grpc : NetBackend

-- The state of a node that matters for the creation of a group.
pub record MultiRaft : Type 0 where
  pub config : ClusterConfig
  pub net : NetBackend
  pub groups : List ℕ

-- What a call leaves, and whether it has called `initialize`.
pub record Created : Type 0 where
  pub result : Result MultiRaftError (Unit {0})
  pub node : MultiRaft
  pub glue : ClusterGlue
  pub calls_initialize : Bool

abbrev pub is_standby : NodeRole → Bool
is_standby voter = false
is_standby standby = true

abbrev pub is_empty : List ℕ → Bool
is_empty [] = true
is_empty (m ∷ ms) = false

-- The checks of the arguments.
unfoldable pub refused : MultiRaft → List ℕ → Bool
refused node members =
    if is_empty members
    then true
    else not (is_standby node.config.role) && not (contains members node.config.node_id)

abbrev pub settled : Result MultiRaftError (Unit {0}) → MultiRaft → ClusterGlue → Created
settled r node glue = record { result = r; node = node; glue = glue; calls_initialize = false }

abbrev pub initialize_with : InitOutcome → MultiRaft → ClusterGlue → Created
initialize_with outcome node glue = record {
  result = try_initialize outcome;
  node = node;
  glue = glue;
  calls_initialize = true;
}

-- What follows once the group runs locally.
unfoldable pub join : InitOutcome → ℕ → List ℕ → MultiRaft → NetBackend → ClusterGlue → Created
join outcome group members node grpc glue = initialize_with outcome node glue
join outcome group members node in_process glue =
    let (all_ready, marked) = mark_ready group node.config.node_id members glue in
    let (won, claimed) = try_claim_init group marked in
    if all_ready
    then (if won then initialize_with outcome node claimed else settled (ok tt) node claimed)
    else settled (ok tt) node marked

abbrev pub with_spawned :
    Result MultiRaftError (Unit {0}) → MultiRaft → ClusterGlue → Created → Created
with_spawned (ok _) node glue next = next
with_spawned (err e) node glue next = settled (err e) node glue

-- `spawn` is what `spawn_local_group` gives, if the group does not run yet.
unfoldable pub create_group :
    Result MultiRaftError (Unit {0}) → InitOutcome → ℕ → List ℕ → MultiRaft → ClusterGlue → Created
create_group spawn outcome group members node glue =
    let node' : MultiRaft = record node { groups = add group node.groups } in
    let next : Created =
      if is_standby node.config.role
      then settled (ok tt) node' glue
      else join outcome group members node' node.net glue in
    if refused node members
    then settled (err other) node glue
    else if contains node.groups group
    then next
    else with_spawned spawn node glue next

-- The advertisements that a node knows.
abbrev pub is_same_ad : SnapshotAdvertisement → SnapshotAdvertisement → Bool
is_same_ad ad a = (a.group == ad.group) && bytes_eq a.snapshot_id ad.snapshot_id

unfoldable pub record_ad :
    SnapshotAdvertisement → List SnapshotAdvertisement → List SnapshotAdvertisement
record_ad ad ads = retain (λ a. not (is_same_ad ad a)) ads ++ (ad ∷ [])
