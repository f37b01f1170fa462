-- ===== src/Demo/Run.antt =====
-- crates/multiraft-demo/src/main.rs: `run_cluster` and `run_node`, from their arguments to the
-- state of the server. What openraft does in a call, what the nodes show in each round of a wait,
-- and the clock of each wait are arguments.
pub mod Traced
pub mod EveryNode
pub mod EveryGroup
pub mod Nodes
pub mod Cluster
pub mod Arguments
pub mod Single
mod Tests
use bf_multiraft.Base.{
  ℕ, zero, suc, ◌+◌, Bool, true, false, not, ◌||◌, Option, none, some, List, [], ◌∷◌, ◌++◌, Bytes,
  map, if◌then◌else◌,
}
use bf_multiraft.Io.{Env}
use bf_multiraft.Codec.{TotalCodec}
use bf_multiraft.Fsm.{Result, ok, err}
use bf_multiraft.Core.{ClusterConfig, MultiRaftError, SocketAddr}
use bf_multiraft.Net.Router.{new_router}
use bf_multiraft.Net.Channels.{GrpcRouter}
use bf_multiraft.Facade.{MultiRaft, ClusterGlue, Created, create_group, is_standby}
use bf_multiraft.Facade.Leaders.{View, wait_for_leader}
use bf_multiraft.Facade.Runtime.{AdsFile, Ads}
use bf_multiraft.Facade.Start.{Seat, Running, start_cluster, start_grpc}
use bf_multiraft.Demo.{
  Args, KeySource, key_source, validate_counts, voters, group_ids, cluster_config, node_config,
  voter_admins,
}
use bf_multiraft.Demo.Startup.{Chance, Tried, create_groups, wait_local_sees_leaders}

-- The nodes of a process, their glue, and the groups for which they have called `initialize`, in
-- order.
pub record Process : Type 0 where
  pub nodes : List MultiRaft
  pub glue : ClusterGlue
  pub initialized : List ℕ

-- The error that ended the loop, if any, and what the loop leaves.
abbrev pub Filled : Type 0
Filled = Option MultiRaftError × Process

abbrev pub called : ℕ → Created → List ℕ
called gid c = if c.calls_initialize then gid ∷ [] else []

abbrev pub and_node : ℕ → Created → Filled → Filled
and_node gid c (failed, p) =
    (failed, record p { nodes = c.node ∷ p.nodes; initialized = called gid c ++ p.initialized })

-- The `?` behind the creation of a group: an error ends the loop.
abbrev pub or_stop :
    ℕ → Created → List MultiRaft → Result MultiRaftError (Unit {0}) → Filled → Filled
or_stop gid c ns (ok u) rest = and_node gid c rest
or_stop gid c ns (err e) rest =
    (some e, record { nodes = c.node ∷ ns; glue = c.glue; initialized = called gid c })

-- The inner loop of `run_cluster`, over the nodes; `chance id` is what node `id` meets.
unfoldable pub create_on_nodes : List ℕ → (ℕ → Chance) → ℕ → List MultiRaft → ClusterGlue → Filled
create_on_nodes members chance gid [] glue =
    (none, record { nodes = []; glue = glue; initialized = [] })
create_on_nodes members chance gid (n ∷ ns) glue =
    let met = chance n.config.node_id in
    let c = create_group met.0 met.1 gid members n glue in
    or_stop gid c ns c.result (create_on_nodes members chance gid ns c.glue)

abbrev pub and_groups : Filled → (List MultiRaft → ClusterGlue → Filled) → Filled
and_groups (some e, p) next = (some e, p)
and_groups (none, p) next =
    let (failed, q) = next p.nodes p.glue in
    (failed, record q { initialized = p.initialized ++ q.initialized })

-- The outer loop, over the groups.
unfoldable pub create_everywhere :
    List ℕ → (ℕ → ℕ → Chance) → List ℕ → List MultiRaft → ClusterGlue → Filled
create_everywhere members chance [] ns glue =
    (none, record { nodes = ns; glue = glue; initialized = [] })
create_everywhere members chance (gid ∷ gids) ns glue =
    and_groups (create_on_nodes members (chance gid) gid ns glue)
      (create_everywhere members chance gids)

-- What the waits of a run show: for each group its clock, and the nodes in each round.
pub record Shows : Type 0 where
  pub clock : ℕ → ℕ → ℕ
  pub look : ℕ → ℕ → List View

abbrev pub or_leaderless : ℕ → Option (Option ℕ) → Option (Option ℕ) → Option (Option ℕ)
or_leaderless gid none rest = none
or_leaderless gid (some none) rest = some (some gid)
or_leaderless gid (some (some leader)) rest = rest

-- The waits of 10 s, group after group: the first group with no leader, if any.
unfoldable pub wait_each : ℕ → Shows → List ℕ → Option (Option ℕ)
wait_each fuel shows [] = some none
wait_each fuel shows (gid ∷ gids) =
    or_leaderless gid
      (wait_for_leader fuel 0 (shows.clock gid 0 + 10000) (shows.clock gid) (shows.look gid))
      (wait_each fuel shows gids)

-- How a run ends before it serves, or the state with which it serves, whether it proposes by
-- itself, and where it publishes its snapshots.
pub data Ended (S : Type 0) : Type 0 where
  rejected : Ended S
  not_started : Ended S
  create_failed : MultiRaftError → S → Ended S
  leaderless : S → Ended S
  serving : S → KeySource → Bool → List SocketAddr → Ended S

abbrev pub waited : Args → Process → Option (Option ℕ) → Option (Ended Process)
waited args p none = none
waited args p (some (some gid)) = some (leaderless p)
waited args p (some none) = some (serving p (key_source 0) (not args.no_auto_propose) [])

abbrev pub filled : ℕ → Shows → Args → Filled → Option (Ended Process)
filled fuel shows args (some e, p) = some (create_failed e p)
filled fuel shows args (none, p) = waited args p (wait_each fuel shows (group_ids args))

-- What the machine gives: whether it makes the data directory, and to each node its directory, its
-- channel and the file of its advertisements.
pub record Machine : Type 0 where
  pub dir_made : Bool
  pub node_dir : ℕ → Bytes
  pub tx : ℕ → ℕ
  pub file : ℕ → Env AdsFile

abbrev pub seat_for : Machine → Args → ℕ → Seat
seat_for m args id = record {
  config = cluster_config m.node_dir args id;
  tx = m.tx id;
  file = m.file id;
}

abbrev pub empty_glue : ClusterGlue
empty_glue = record { ready = []; claimed_init = [] }

-- `none` means that fuel ran out in a wait.
unfoldable pub run_cluster :
    TotalCodec Ads → Machine → ℕ → Shows → (ℕ → ℕ → Chance) → Args → Option (Ended Process)
run_cluster json m fuel shows chance args =
    let (running, router) = start_cluster json (map (seat_for m args) (voters args)) new_router in
    if not (validate_counts args)
    then some rejected
    else if not m.dir_made
    then some not_started
    else filled fuel shows args (
        create_everywhere (voters args) chance (group_ids args) (map (λ r. r.node) running)
          empty_glue)

-- What a node over gRPC meets: whether its directory is made and its listener binds, what openraft
-- gives in each attempt, and what the wait for the leaders shows.
pub record Weather : Type 0 where
  pub dir_made : Bool
  pub binds : SocketAddr → Bool
  pub chance : ℕ → ℕ → Chance
  pub clock : ℕ → ℕ
  pub sees : ℕ → ℕ → Bool

abbrev pub key_base : ClusterConfig → KeySource
key_base config = key_source config.node_id

-- A voter waits for the leaders, and proposes by itself unless it is told not to; a standby
-- publishes its snapshots to the voters.
abbrev pub awaited : Args → ClusterConfig → MultiRaft → Option Bool → Option (Ended MultiRaft)
awaited args config node none = none
awaited args config node (some false) = some (leaderless node)
awaited args config node (some true) = some (
    serving node (key_base config) (not (args.no_auto_propose || is_standby args.role))
      (if is_standby args.role then voter_admins args else []))

abbrev pub tried : ℕ → Weather → Args → ClusterConfig → Tried → Option (Ended MultiRaft)
tried fuel w args config (some (gid, e), node, glue) = some (create_failed e node)
tried fuel w args config (none, node, glue) = awaited args config node (
    if is_standby args.role
    then some true
    else wait_local_sees_leaders fuel 0 (w.clock 0 + 30000) w.clock w.sees (group_ids args))

abbrev pub started :
    ℕ → Weather → Args → ClusterConfig → Option (Running × GrpcRouter) → Option (Ended MultiRaft)
started fuel w args config none = some not_started
started fuel w args config (some (running, router)) =
    tried fuel w args config
      (create_groups (voters args) w.chance (group_ids args) running.node empty_glue)

abbrev pub configured :
    TotalCodec Ads
    → ℕ
    → Env AdsFile
    → ℕ
    → Weather
    → Args
    → Option ClusterConfig
    → Option (Ended MultiRaft)
configured json tx file fuel w args none = some rejected
configured json tx file fuel w args (some config) =
    if not w.dir_made
    then some not_started
    else started fuel w args config
        (start_grpc json w.binds (record { config = config; tx = tx; file = file }))

-- `standby_env` tells whether the variable `STANDBY` is 1.
unfoldable pub run_node :
    TotalCodec Ads → ℕ → Env AdsFile → ℕ → Weather → Bool → Args → Option (Ended MultiRaft)
run_node json tx file fuel w standby_env args =
    configured json tx file fuel w args (node_config standby_env args)
