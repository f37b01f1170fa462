-- ===== src/Facade/Start.antt =====
-- crates/multiraft-net/src/multiraft.rs and node.rs: the start of a node, in process or over gRPC.
-- The inbound channel of a node is a number; the file of its advertisements is its own.
pub mod Registered
pub mod Fabric
use bf_multiraft.Base.{ℕ, Bool, true, false, Option, none, some, List, [], ◌∷◌, if◌then◌else◌}
use bf_multiraft.OrdMap.{OrdMap, lookup, insert}
use bf_multiraft.Io.{Env}
use bf_multiraft.Codec.{TotalCodec}
use bf_multiraft.RaftTypes.{RaftTypes}
use bf_multiraft.Fsm.{Result, ok, err, StateMachine}
use bf_multiraft.Core.{ClusterConfig, SocketAddr}
use bf_multiraft.Bridge.{SmTypes, SmOptions}
use bf_multiraft.Net.Router.{Router, register_node}
use bf_multiraft.Net.Channels
use bf_multiraft.Net.Channels.{GrpcRouter}
use bf_multiraft.Facade.{MultiRaft, NetBackend, in_process, grpc}
use bf_multiraft.Facade.Requests.{peer_addr}
use bf_multiraft.Facade.Runtime.{AdsFile, Ads, SnapshotRuntime}
use bf_multiraft.Facade.Runtime
use bf_multiraft.Facade.Spawn.{
  SmStore, SnapshotPolicy, RaftConfig, LogStore, in_memory, Openraft, GroupApp, new_store,
}
use bf_multiraft.Log.File.{Codecs}

-- What a node needs to start: its configuration, its channel and the file of its advertisements.
pub record Seat : Type 0 where
  pub config : ClusterConfig
  pub tx : ℕ
  pub file : Env AdsFile

pub record Running : Type 0 where
  pub node : MultiRaft
  pub runtime : SnapshotRuntime

abbrev pub fresh_node : ClusterConfig → NetBackend → MultiRaft
fresh_node config net = record { config = config; net = net; groups = [] }

-- `Node::with_groups`, and `Node::new` alike: the node is reachable by its channel.
unfoldable pub with_groups : ℕ → ℕ → Router → Router
with_groups node_id tx router = register_node node_id tx router

module _ (json : TotalCodec Ads) where
  unfoldable pub start_inner : Seat → Router → Running × Router
  start_inner seat router =
      let (runtime, file) = Runtime.new json seat.config seat.file in
      (
        record { node = fresh_node seat.config in_process; runtime = runtime },
        with_groups seat.config.node_id seat.tx router,
      )

  abbrev and_running : Running → List Running × Router → List Running × Router
  and_running n (ns, router) = (n ∷ ns, router)

  -- The loop of `start_cluster`, over one router; none of the starts can fail.
  unfoldable pub start_cluster : List Seat → Router → List Running × Router
  start_cluster [] router = ([], router)
  start_cluster (seat ∷ seats) router =
      let (n, router') = start_inner seat router in and_running n (start_cluster seats router')

  abbrev bound : Seat → Bool → Option (Running × GrpcRouter)
  bound seat false = none
  bound seat true =
      let (runtime, file) = Runtime.new json seat.config seat.file in
      some (
        record { node = fresh_node seat.config grpc; runtime = runtime },
        Channels.new seat.config.peers seat.config.node_id,
      )

  -- `binds` tells whether the listener binds to an address.
  unfoldable pub start_grpc : (SocketAddr → Bool) → Seat → Option (Running × GrpcRouter)
  start_grpc binds seat = elim (peer_addr seat.config.node_id seat.config.peers) [
    | none ↦ none
    | some addr ↦ bound seat (binds addr)
  ]

module _ (T : SmTypes) (M : StateMachine) (C : RaftTypes) (json : Codecs C)
    (R : Openraft T M C) where
  abbrev pub GroupMap : Type 0
  GroupMap = OrdMap (GroupApp T M C json R)

  unfoldable pub add_group : ℕ → ℕ → R.Handle → SmStore T M → GroupMap → GroupMap
  add_group node_id group_id raft sm groups =
      insert group_id
        (record { node_id = node_id; group_id = group_id; raft = raft; state_machine = sm }) groups

  abbrev handle_of : Option (GroupApp T M C json R) → Option R.Handle
  handle_of none = none
  handle_of (some app) = some app.raft

  unfoldable pub get_raft : ℕ → GroupMap → Option R.Handle
  get_raft group_id groups = handle_of (lookup group_id groups)

  -- The configuration of `create_node`; the policy is openraft's default.
  abbrev plain_config : SnapshotPolicy → RaftConfig
  plain_config policy = record {
    heartbeat_interval = 100;
    election_timeout_min = 300;
    election_timeout_max = 600;
    max_in_snapshot_log_to_keep = 0;
    snapshot_policy = policy;
  }

  -- The groups of `create_node`; `none` is the panic of an `unwrap`.
  unfoldable pub create_node :
      SnapshotPolicy → ℕ → (ℕ → M.State) → List ℕ → GroupMap → Option GroupMap
  create_node policy node_id make_fsm [] groups = some groups
  create_node policy node_id make_fsm (g ∷ gs) groups =
      let sm = new_store T M g (make_fsm g) in
      if R.validate (plain_config policy)
      then (elim (R.new_raft node_id (plain_config policy) (in_process, g) in_memory sm) [
        | none ↦ none
        | some raft ↦ create_node policy node_id make_fsm gs (add_group node_id g raft sm groups)
      ])
      else none
