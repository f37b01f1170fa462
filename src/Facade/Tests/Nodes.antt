-- ===== src/Facade/Tests/Nodes.antt =====
-- A group whose handle is a log of a length, and a file of advertisements, with the requests, the
-- watch and the start of groups at concrete nodes.
use bf_multiraft.Base.{
  ℕ, zero, suc, ◌+◌, ◌*◌, ◌≡◌, refl, true, false, Bool, Option, none, some, List, [], ◌∷◌, Bytes,
  arith, if◌then◌else◌,
}
use bf_multiraft.Io.{calm}
use bf_multiraft.Codec.{TotalCodec}
use bf_multiraft.Fsm.{ok, err, Result}
use bf_multiraft.Fsm.Counter.{CounterFsm}
use bf_multiraft.Fsm.Counter
use bf_multiraft.Core.{SnapshotAdvertisement, ClusterConfig, standby, standby_offload, ProposeOk}
use bf_multiraft.Net.Router.{Router}
use bf_multiraft.Catalog.Tests.{params, disk}
use bf_multiraft.Bridge.Tests.{types, machine, empty}
use bf_multiraft.Log
use bf_multiraft.Log.File
use bf_multiraft.Facade.{in_process, grpc}
use bf_multiraft.Facade.Requests.{RaftApi}
use bf_multiraft.Facade.Requests
use bf_multiraft.Facade.Requests.Shutdown.{Leaves, shutdown-Leaves}
use bf_multiraft.Facade.Leaders.{View, Seen, watch, wait_for_leader}
use bf_multiraft.Facade.Leaders.Watch.{NoRepeat, leaders, final, watch-NoRepeat}
use bf_multiraft.Facade.Leaders.Wait.{Answers, wait_for_leader-Answers}
use bf_multiraft.Facade.Runtime.{Ads, SnapshotRuntime}
use bf_multiraft.Facade.Runtime
use bf_multiraft.Facade.Runtime.Reload.{record_each, record_each-Restart}
use bf_multiraft.Facade.Spawn.{Openraft, spawn_local_group, on_standby_trigger}
use bf_multiraft.Facade.Spawn.Offload.{Offloaded, spawn_local_group-Offloaded}
use bf_multiraft.Facade.Spawn.Advertise.{Advertises, on_standby_trigger-Advertises}

pub record Handle : Type 0 where
  pub leads : Bool
  pub entries : ℕ
  pub fsm : CounterFsm

-- A handle that leads accepts a write; another names node 2.
abbrev pub write_to : Handle → Result (Option (Option ℕ)) ProposeOk × Handle
write_to h =
    if h.leads
    then (ok (record { index = h.entries; term = 1 }), record h { entries = suc h.entries })
    else (err (some (some 2)), h)

abbrev pub confirm : Handle → Result (Option (Option ℕ)) (Unit {0}) × Handle
confirm h = if h.leads then (ok tt, h) else (err (some (some 2)), h)

abbrev pub api : RaftApi CounterFsm
api = record {
  Group = Handle;
  ApiError = Option (Option ℕ);
  forward_to_leader = λ e. e;
  client_write = λ b h. write_to h;
  ensure_linearizable = confirm;
  add_learner = λ id addr h. confirm h;
  wait_for_recovery = λ h. (ok tt, h);
  shutdown = λ h. (ok tt, h);
  current_leader = λ h. some 2;
  is_leader = λ h. h.leads;
  fsm = λ h. h.fsm;
}

abbrev pub counter : ℕ → CounterFsm
counter v = record { values = (7, v) ∷ []; seen = [] }

abbrev pub handle : Bool → ℕ → Handle
handle leads v = record { leads = leads; entries = 3; fsm = counter v }

-- Texts end with a zero; the other bytes are shifted by one.
abbrev pub put_field : Bytes → Bytes → Bytes
put_field [] rest = 0 ∷ rest
put_field (n ∷ f) rest = suc n ∷ put_field f rest

abbrev pub cons_head : ℕ → List Bytes → List Bytes
cons_head n [] = (n ∷ []) ∷ []
cons_head n (f ∷ fs) = (n ∷ f) ∷ fs

abbrev pub fields : Bytes → List Bytes
fields [] = []
fields (zero ∷ b) = [] ∷ fields b
fields (suc n ∷ b) = cons_head n (fields b)

fields-put_field : (f rest : Bytes) → fields (put_field f rest) ≡ f ∷ fields rest
fields-put_field [] rest = refl
fields-put_field (n ∷ f) rest = rw (fields-put_field f rest) refl

abbrev pub numbers : SnapshotAdvertisement → Bytes
numbers a = a.group ∷ a.last_index ∷ a.last_term ∷ a.size ∷ []

abbrev pub put_ads : Ads → Bytes
put_ads [] = []
put_ads (a ∷ ads) =
    put_field (numbers a)
      (put_field a.snapshot_id (put_field a.sha256_hex (put_field a.fetch_url (put_ads ads))))

abbrev pub cons_ad : SnapshotAdvertisement → Option Ads → Option Ads
cons_ad a none = none
cons_ad a (some ads) = some (a ∷ ads)

abbrev pub get_ads : List Bytes → Option Ads
get_ads [] = some []
get_ads ((g ∷ i ∷ t ∷ s ∷ []) ∷ id ∷ sha ∷ url ∷ rest) =
    cons_ad
      (record {
        group = g;
        last_index = i;
        last_term = t;
        snapshot_id = id;
        size = s;
        sha256_hex = sha;
        fetch_url = url;
      })
      (get_ads rest)
get_ads _ = none

pub get_ads-put_ads : (ads : Ads) → get_ads (fields (put_ads ads)) ≡ some ads
get_ads-put_ads [] = refl
get_ads-put_ads (a ∷ ads) =
    rw
      (
        fields-put_field (numbers a),
        fields-put_field a.snapshot_id,
        fields-put_field a.sha256_hex,
        fields-put_field a.fetch_url,
        get_ads-put_ads ads,
      )
      refl

abbrev pub ads_json : TotalCodec Ads
ads_json = record {
  to_vec = put_ads;
  from_slice = λ b. get_ads (fields b);
  round_trip = get_ads-put_ads;
}

-- Node 1 has the groups 7 and 8, and is registered.
abbrev node_groups : Requests.Groups api
node_groups = (7, handle true 5) ∷ (8, handle false 6) ∷ []

abbrev router : Router
router = record { nodes = (1, 100) ∷ (2, 200) ∷ []; metrics = record { peers = [] } }

shutdown-Leaves_example :
    Leaves api 1 node_groups router (Requests.shutdown api in_process 1 node_groups router)
shutdown-Leaves_example = shutdown-Leaves api 1 node_groups router

abbrev seen : List Seen
seen = (none, []) ∷ (some 1, 5 ∷ []) ∷ (some 1, 5 ∷ []) ∷ (some 2, 5 ∷ []) ∷ []

watch-NoRepeat_example :
    NoRepeat none (leaders (watch none seen))
    × (final none (leaders (watch none seen)) ≡ final none (leaders seen))
watch-NoRepeat_example = watch-NoRepeat none seen

-- Every round takes 60 ms, and node 2 leads from round 3 on.
abbrev views : ℕ → List View
views (suc (suc (suc k))) = record { leader = some 2; is_leader = true } ∷ []
views k = record { leader = some 1; is_leader = false } ∷ []

wait_for_leader-Answers_example :
    (r : Option ℕ) × (wait_for_leader 23 0 (0 * 60 + 1000) (λ k. k * 60) views ≡ some r)
    × Answers 0 (0 * 60 + 1000) (λ k. k * 60) views r
wait_for_leader-Answers_example =
    wait_for_leader-Answers 1000 23 (λ k. k * 60) views (λ k. omega arith) (omega arith)

abbrev pub standby_config : ClusterConfig
standby_config = record {
  node_id = 4;
  peers = [];
  data_dir = 100 ∷ [];
  heartbeat_interval_ms = 100;
  election_timeout_min_ms = 300;
  election_timeout_max_ms = 600;
  role = standby;
  snapshot_mode = standby_offload;
  snapshot_keep = 2;
  admin_advertise_addr = none;
}

abbrev ad : ℕ → SnapshotAdvertisement
ad index = record {
  group = 7;
  last_index = index;
  last_term = 1;
  snapshot_id = index ∷ [];
  size = 3;
  sha256_hex = [];
  fetch_url = [];
}

abbrev ads : Ads
ads = ad 4 ∷ ad 9 ∷ ad 4 ∷ []

record_each-Restart_example :
    let (rt, w) =
      record_each ads_json ads (Runtime.new ads_json standby_config (calm none)).0 (calm none) in
    (Runtime.new ads_json standby_config w).0.ads ≡ rt.ads
record_each-Restart_example = record_each-Restart ads_json standby_config none ads refl

abbrev pub runtime : SnapshotRuntime
runtime = record {
  catalog = some (record { keep = 2 });
  ads = ads;
  data_dir = 100 ∷ [];
  admin_advertise_addr = some (record { ip = 127 ∷ 0 ∷ 0 ∷ 1 ∷ []; port = 21100 });
  has_callback = true;
}

abbrev no_files : File.Disk
no_files = record { hard_state = none; log = none; hard_state_tmp = none; log_tmp = none }

abbrev openraft : Openraft types machine Log.Tests.types
openraft = record { Handle = ℕ; validate = λ c. true; new_raft = λ id config net log sm. some id }

spawn_local_group-Offloaded_example :
    Offloaded types machine Log.Tests.types Log.Tests.json openraft standby_config grpc runtime
      (λ g. Counter.new)
      7
      []
      (spawn_local_group types machine Log.Tests.types Log.Tests.json openraft standby_config grpc
        runtime
        (λ g. Counter.new)
        7
        []
        (calm no_files)).0
spawn_local_group-Offloaded_example =
    spawn_local_group-Offloaded types machine Log.Tests.types Log.Tests.json openraft standby_config
      grpc runtime (λ g. Counter.new) 7 [] refl (calm no_files)

on_standby_trigger-Advertises_example :
    Advertises types machine params ads_json
      (record { keep = 2 })
      7
      40
      4
      (λ s. s)
      empty
      runtime
      (calm disk)
      (on_standby_trigger types machine params ads_json
        (record { keep = 2 })
        7
        40
        4
        (λ s. s)
        empty
        runtime
        (calm disk)
        (calm none))
on_standby_trigger-Advertises_example =
    on_standby_trigger-Advertises types machine params ads_json (record { keep = 2 }) 7 40 4
      (λ s. s) empty runtime (calm disk) (calm none)
