-- ===== src/Facade/Tests.antt =====
-- The creation of a group by two nodes, and the recovery of a group from a standby.
pub mod Nodes
use bf_multiraft.Base.{
  ℕ, ◌≡◌, ◌≤◌, refl, arith, true, inl, inr, not, none, some, List, [], ◌∷◌, ◌++◌, contains, retain,
  bytes_eq, Bytes, false,
}
use bf_multiraft.Fsm.{ok}
use bf_multiraft.Core.{
  ClusterConfig, voter, disabled, SnapshotAdvertisement, standby_snapshot_trigger,
}
use bf_multiraft.Facade.{ClusterGlue, in_process, initialized, refused, record_ad, is_same_ad}
use bf_multiraft.Facade.InitOnce.{Create, initializations, AllInProcess, initializations-once}
use bf_multiraft.Facade.InitOnce.Reached.{no_glue, initializations-reached}
use bf_multiraft.Facade.Ads.{ads_of, record_ad-only, record_ad-others}
use bf_multiraft.Io.{calm}
use bf_multiraft.Io
use bf_multiraft.OrdMap.{lookup, contains_key}
use bf_multiraft.Facade.Requests.{Groups, shutdown, shutdown_all}
use bf_multiraft.Facade.Start.{Seat}
use bf_multiraft.Facade.Start.Fabric.{SharedFabric, start_node, Rejoins, start_node-Rejoins}
use bf_multiraft.Facade.Tests.Nodes.{api, handle, ads_json}
use bf_multiraft.Core.Decimal.{dir_name}
use bf_multiraft.Catalog.Tests.{params, disk, listed, two, front, room, put_meta}
use bf_multiraft.Catalog.Written.{meta_of, written}
use bf_multiraft.Bridge.{new_inner, build_standby_snapshot_async, Item, SmOptions, normal, apply}
use bf_multiraft.Bridge.Tests.{types, machine, empty, restorable}
use bf_multiraft.Facade.Handover.{HandedOver}
use bf_multiraft.Facade.Handover.Batch.{apply-HandedOver}
use bf_multiraft.Bridge.Entries.{commands, run_commands, asked}
use bf_multiraft.Bridge
use bf_multiraft.Facade.Recovery.{try_install_from_standby_catalog}

abbrev config : ℕ → ClusterConfig
config id = record {
  node_id = id;
  peers = [];
  data_dir = [];
  heartbeat_interval_ms = 100;
  election_timeout_min_ms = 300;
  election_timeout_max_ms = 600;
  role = voter;
  snapshot_mode = disabled;
  snapshot_keep = 2;
  admin_advertise_addr = none;
}

abbrev by_node : ℕ → Create
by_node id = record {
  spawn = ok tt;
  outcome = initialized;
  group = 7;
  members = 1 ∷ 2 ∷ [];
  node = record { config = config id; net = in_process; groups = [] };
}

abbrev glue : ClusterGlue
glue = record { ready = []; claimed_init = [] }

-- The second node is the last member to be ready, and then each node calls again.
abbrev calls : List Create
calls = by_node 1 ∷ by_node 2 ∷ by_node 1 ∷ by_node 2 ∷ []

initializations-once_example : initializations 7 calls glue ≤ 1
unfolding AllInProcess contains
initializations-once_example = initializations-once 7 calls glue (refl, (refl, (refl, (refl, tt))))

-- Both members start the group in their first call.
initializations-reached_example : initializations 7 calls no_glue ≡ 1
unfolding refused contains
initializations-reached_example =
    initializations-reached 7 1 (2 ∷ []) calls
      ((refl, λ e. refl), ((refl, λ e. refl), ((refl, λ e. refl), ((refl, λ e. refl), tt))))
      (inl (refl, refl, (refl, refl, refl)), (inr (inl (refl, refl, (refl, refl, refl))), tt))

-- Node 1 has stopped, and starts again with channel 5; node 2 stays.
abbrev fabric : SharedFabric
fabric = record {
  router = record {
    nodes = (1, 10) ∷ (2, 11) ∷ [];
    metrics = record { peers = (1, tt) ∷ (2, tt) ∷ [] };
  };
  glue = record { ready = []; claimed_init = 7 ∷ [] };
}

abbrev seat : Seat
seat = record { config = config 1; tx = 5; file = calm none }

abbrev running : Groups api
running = (7, handle true 0) ∷ []

start_node-Rejoins_example : Rejoins seat fabric (
    start_node ads_json seat
      (record fabric { router = (shutdown api in_process 1 running fabric.router).2 }))
unfolding contains_key shutdown shutdown_all
start_node-Rejoins_example =
    start_node-Rejoins api ads_json seat fabric running refl (omega arith) refl

abbrev applied_at : ℕ → Bytes → Item types
applied_at index command =
    Io.ok (record { log_id = (4, index); payload = normal (record { payload = command }) }, true)

-- An addition under the key 1, the trigger, and an addition under the key 2.
abbrev batch : List (Item types)
batch =
    applied_at 39 (1 ∷ 5 ∷ [])
    ∷ applied_at 40 standby_snapshot_trigger
    ∷ applied_at 41 (2 ∷ 5 ∷ [])
    ∷ []

abbrev offloading : SmOptions types
offloading = record { allow_hot_build = false; catalog = some two; has_trigger = true }

-- The snapshot for index 40 has both additions, and the voter had nothing.
apply-HandedOver_example :
    let bytes : Bytes = 10 ∷ 2 ∷ 1 ∷ [] in
    let a = apply types machine offloading batch empty in
    let b =
      build_standby_snapshot_async types machine params two 7 40 4 (λ s. s) a.inner (calm disk) in
    (a.triggers ≡ (7, 40, 4) ∷ [])
    × (b.result ≡ Io.ok (written params two 7 40 4 (dir_name 40 4) bytes))
    × HandedOver types machine restorable params 40 4 7 bytes
        (run_commands types machine 7 (commands types machine batch) empty.fsm)
        Bridge.Tests.voter
        (calm disk)
        (try_install_from_standby_catalog types machine params Bridge.Tests.voter 7 b.env
          (some empty)
          (calm disk))
unfolding new_inner bf_multiraft.Fsm.Counter.snapshot bf_multiraft.Fsm.Counter.value lookup
    Bridge.apply Bridge.apply_entries Bridge.respond_to
    bf_multiraft.Core.is_standby_snapshot_trigger bytes_eq bf_multiraft.Fsm.Counter.apply
    bf_multiraft.Fsm.Counter.apply_cmd contains bf_multiraft.OrdMap.insert asked
apply-HandedOver_example =
    apply-HandedOver types machine restorable params front two (omega arith) 40 4 (10 ∷ 2 ∷ 1 ∷ [])
      (put_meta (meta_of params two 7 40 4 (dir_name 40 4) (10 ∷ 2 ∷ 1 ∷ []))) empty refl offloading
      batch empty [] [] disk listed (λ s. s) Bridge.Tests.voter (calm disk) refl refl refl refl refl
      (room (10 ∷ 2 ∷ 1 ∷ []))
