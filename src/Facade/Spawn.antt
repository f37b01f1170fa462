-- ===== src/Facade/Spawn.antt =====
-- crates/multiraft-net/src/multiraft.rs: the start of a group on a node, and the snapshots that a
-- standby takes when it applies a trigger. What openraft does is a parameter; the watch that the
-- start of a group leaves running is `watch` of Facade.Leaders.
pub mod Offload
pub mod Advertise
use bf_multiraft.Base.{
  ℕ, Bool, true, false, not, ◌&&◌, Option, none, some, List, [], ◌∷◌, ◌++◌, Bytes, codes,
  if◌then◌else◌,
}
use bf_multiraft.OrdMap.{OrdMap, insert}
use bf_multiraft.Io.{IoResult, Env}
use bf_multiraft.Io
use bf_multiraft.Codec.{TotalCodec}
use bf_multiraft.RaftTypes.{RaftTypes}
use bf_multiraft.Fsm.{Result, ok, err, StateMachine}
use bf_multiraft.Core.{ClusterConfig, MultiRaftError, other, SocketAddr, SnapshotAdvertisement}
use bf_multiraft.Core.Decimal.{to_string}
use bf_multiraft.Catalog.{CatalogEntry, SnapshotCatalog, Params}
use bf_multiraft.Catalog
use bf_multiraft.Log.File.{Codecs, FileLogInner, open_store}
use bf_multiraft.Log.File
use bf_multiraft.Bridge.{
  SmTypes, SmOptions, StateMachineStoreInner, After, new_inner, build_standby_snapshot_async,
}
use bf_multiraft.Facade.{NetBackend, is_standby}
use bf_multiraft.Facade.Runtime.{
  AdsFile, Ads, SnapshotRuntime, is_empty_path, offloads, record_snapshot_ad,
}

pub data SnapshotPolicy : Type 0 where
  logs_since_last : ℕ → SnapshotPolicy
  never : SnapshotPolicy

abbrev pub has_catalog : Option SnapshotCatalog → Bool
has_catalog none = false
has_catalog (some c) = true

-- The fields of openraft's `Config` that are not its defaults.
pub record RaftConfig : Type 0 where
  pub heartbeat_interval : ℕ
  pub election_timeout_min : ℕ
  pub election_timeout_max : ℕ
  pub max_in_snapshot_log_to_keep : ℕ
  pub snapshot_policy : SnapshotPolicy

abbrev pub raft_config : ClusterConfig → RaftConfig
raft_config config = record {
  heartbeat_interval = config.heartbeat_interval_ms;
  election_timeout_min = config.election_timeout_min_ms;
  election_timeout_max = config.election_timeout_max_ms;
  max_in_snapshot_log_to_keep = 0;
  snapshot_policy = if offloads config.snapshot_mode then never else logs_since_last 5000;
}

-- A fresh log in memory, or the log of the directory `group-{group}`.
pub data LogStore (C : RaftTypes) : Type 0 where
  in_memory : LogStore C
  in_file : FileLogInner C → LogStore C

-- `format!("{addr}")` for an address on IPv4.
unfoldable pub dotted : Bytes → Bytes
dotted [] = []
dotted (b ∷ []) = to_string b
dotted (b ∷ c ∷ bs) = to_string b ++ (46 ∷ dotted (c ∷ bs))

abbrev pub addr_text : SocketAddr → Bytes
addr_text addr = dotted addr.ip ++ (58 ∷ to_string addr.port)

abbrev pub fetch_url : Option SocketAddr → ℕ → Bytes
fetch_url none gid = []
fetch_url (some addr) gid =
    codes "http://"
    ++ (addr_text addr ++ (codes "/snapshots/" ++ (to_string gid ++ codes "/latest")))

abbrev pub ad_of : Option SocketAddr → ℕ → CatalogEntry → SnapshotAdvertisement
ad_of addr gid entry = record {
  group = gid;
  last_index = entry.last_index;
  last_term = entry.last_term;
  snapshot_id = entry.snapshot_id;
  size = entry.size;
  sha256_hex = entry.sha256_hex;
  fetch_url = fetch_url addr gid;
}

module _ (T : SmTypes) (M : StateMachine) where
  -- The store that openraft drives: its state and its options.
  pub record SmStore : Type 0 where
    pub inner : StateMachineStoreInner T M
    pub opts : SmOptions T

  unfoldable pub with_options : ℕ → M.State → SmOptions T → SmStore
  with_options group_id fsm opts = record { inner = new_inner T M group_id fsm; opts = opts }

  -- `StateMachineStore::new`: hot builds, no catalog and no trigger.
  unfoldable pub new_store : ℕ → M.State → SmStore
  new_store group_id fsm =
      with_options group_id fsm
        (record { allow_hot_build = true; catalog = none; has_trigger = false })

  -- openraft's `Config::validate` and `Raft::new`, with the network of the group.
  pub record Openraft (C : RaftTypes) : Type 1 where
    pub Handle : Type 0
    pub validate : RaftConfig → Bool
    pub new_raft : ℕ → RaftConfig → NetBackend × ℕ → LogStore C → SmStore → Option Handle

module _ (T : SmTypes) (M : StateMachine) (C : RaftTypes) (json : Codecs C)
    (R : Openraft T M C) where
  pub record GroupApp : Type 0 where
    pub node_id : ℕ
    pub group_id : ℕ
    pub raft : R.Handle
    pub state_machine : SmStore T M

  -- What a start of a group gives.
  abbrev pub Spawned : Type 0
  Spawned = Result MultiRaftError (Unit {0}) × OrdMap GroupApp

  abbrev pub takes_triggers : ClusterConfig → Bool
  takes_triggers config = is_standby config.role && offloads config.snapshot_mode

  abbrev pub sm_options : ClusterConfig → SnapshotRuntime → SmOptions T
  sm_options config rt = record {
    allow_hot_build = not (offloads config.snapshot_mode);
    catalog = rt.catalog;
    has_trigger = takes_triggers config;
  }

  abbrev pub lacks_catalog : ClusterConfig → SnapshotRuntime → Bool
  lacks_catalog config rt = takes_triggers config && not (has_catalog rt.catalog)

  -- The log store of the group, on the disk of its directory.
  abbrev pub log_store : Bytes → Env File.Disk → IoResult (LogStore C) × Env File.Disk
  log_store data_dir w =
      if is_empty_path data_dir then (Io.ok in_memory, w) else opened (open_store C json w)
    where
      opened : IoResult (FileLogInner C) × Env File.Disk → IoResult (LogStore C) × Env File.Disk
      opened (Io.ok log, w') = (Io.ok (in_file log), w')
      opened (Io.err e, w') = (Io.err e, w')

  abbrev pub with_raft :
      ClusterConfig → ℕ → SmStore T M → OrdMap GroupApp → Option R.Handle → Spawned
  with_raft config group sm groups none = (err other, groups)
  with_raft config group sm groups (some raft) = (
    ok tt,
    insert group
        (record { node_id = config.node_id; group_id = group; raft = raft; state_machine = sm })
        groups,
  )

  abbrev pub with_log :
      ClusterConfig
      → NetBackend
      → ℕ
      → SmStore T M
      → OrdMap GroupApp
      → IoResult (LogStore C)
      → Spawned
  with_log config net group sm groups (Io.err e) = (err other, groups)
  with_log config net group sm groups (Io.ok log) =
      with_raft config group sm groups
        (R.new_raft config.node_id (raft_config config) (net, group) log sm)

  unfoldable pub spawn_local_group :
      ClusterConfig
      → NetBackend
      → SnapshotRuntime
      → (ℕ → M.State)
      → ℕ
      → OrdMap GroupApp
      → Env File.Disk
      → Spawned × Env File.Disk
  spawn_local_group config net rt make_fsm group groups w =
      let sm = with_options T M group (make_fsm group) (sm_options config rt) in
      let (log, w') = log_store config.data_dir w in
      if not (R.validate (raft_config config))
      then ((err other, groups), w)
      else if lacks_catalog config rt
      then ((err other, groups), w)
      else (with_log config net group sm groups log, w')

module _ (T : SmTypes) (M : StateMachine) (p : Params) (json : TotalCodec Ads) where
  -- What the task of a trigger leaves: the store, the runtime, the two disks and the calls of the
  -- callback of `on_snapshot_ready`.
  pub record Triggered : Type 0 where
    pub inner : StateMachineStoreInner T M
    pub runtime : SnapshotRuntime
    pub disk : Env Catalog.Disk
    pub file : Env AdsFile
    pub calls : Ads

  abbrev pub advertised :
      ℕ → SnapshotRuntime → Env AdsFile → After T M CatalogEntry → IoResult CatalogEntry → Triggered
  advertised gid rt v a (Io.err e) = record {
    inner = a.inner;
    runtime = rt;
    disk = a.env;
    file = v;
    calls = [];
  }
  advertised gid rt v a (Io.ok entry) =
      let (rt', v', calls) =
        record_snapshot_ad json (ad_of rt.admin_advertise_addr gid entry) rt v in
      record { inner = a.inner; runtime = rt'; disk = a.env; file = v'; calls = calls }

  -- The task that the callback of a trigger spawns, on the store that has been set before openraft
  -- can apply a trigger; `meanwhile` is what other tasks do to the state
  -- while the snapshot is written.
  unfoldable pub on_standby_trigger :
      SnapshotCatalog
      → ℕ
      → ℕ
      → ℕ
      → (StateMachineStoreInner T M → StateMachineStoreInner T M)
      → StateMachineStoreInner T M
      → SnapshotRuntime
      → Env Catalog.Disk
      → Env AdsFile
      → Triggered
  on_standby_trigger catalog gid index term meanwhile s rt w v =
      let a = build_standby_snapshot_async T M p catalog gid index term meanwhile s w in
      advertised gid rt v a a.result
