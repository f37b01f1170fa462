-- ===== src/Core.antt =====
-- crates/multiraft-core/src/config.rs, error.rs, snapshot.rs and type_config.rs: the types that the
-- other crates share.
pub mod Decimal
use bf_multiraft.Base.{
  ℕ, ◌+◌, ◌%◌, ◌^◌, ◌≡◌, Bool, true, false, Option, none, some, List, [], ◌∷◌, ◌++◌, map, Bytes,
  codes, ltb, bytes_eq, if◌then◌else◌,
}

pub data NodeRole : Type 0 where
  voter standby : NodeRole

pub data SnapshotMode : Type 0 where
  disabled standby_offload : SnapshotMode

-- `SocketAddr` on IPv4: the four bytes of the address, and the port.
pub record SocketAddr : Type 0 where
  pub ip : Bytes
  pub port : ℕ

abbrev pub localhost : Bytes
localhost = 127 ∷ 0 ∷ 0 ∷ 1 ∷ []

pub record ClusterConfig : Type 0 where
  pub node_id : ℕ
  pub peers : List (ℕ × SocketAddr)
  pub data_dir : Bytes
  pub heartbeat_interval_ms : ℕ
  pub election_timeout_min_ms : ℕ
  pub election_timeout_max_ms : ℕ
  pub role : NodeRole
  pub snapshot_mode : SnapshotMode
  pub snapshot_keep : ℕ
  pub admin_advertise_addr : Option SocketAddr

-- The addresses of the peers; `expect` panics on a port that is not a `u16`, and `none` is a panic.
unfoldable pub test_peers : List ℕ → Option (List (ℕ × SocketAddr))
test_peers [] = some []
test_peers (id ∷ ids) = elim (test_peers ids) [
  | none ↦ none
  | some peers ↦
      if ltb ((19000 + id) % 2 ^ 64) 65536
      then some ((id, record { ip = localhost; port = (19000 + id) % 2 ^ 64 }) ∷ peers)
      else none
]

unfoldable pub for_test : ℕ → List ℕ → Option ClusterConfig
for_test node_id peer_ids = elim (test_peers peer_ids) [
  | none ↦ none
  | some peers ↦ some (record {
    node_id = node_id;
    peers = peers;
    data_dir = [];
    heartbeat_interval_ms = 100;
    election_timeout_min_ms = 300;
    election_timeout_max_ms = 600;
    role = voter;
    snapshot_mode = disabled;
    snapshot_keep = 2;
    admin_advertise_addr = none;
  })
]

pub data MultiRaftError : Type 0 where
  not_leader : Option ℕ → MultiRaftError
  unknown_group : ℕ → MultiRaftError
  other : MultiRaftError

pub record ProposeOk : Type 0 where
  pub index : ℕ
  pub term : ℕ

-- The trigger is a name between two zero bytes.
abbrev pub standby_snapshot_trigger : Bytes
standby_snapshot_trigger = 0 ∷ (codes "multiraft.standby_snapshot_trigger" ++ 0 ∷ [])

unfoldable pub is_standby_snapshot_trigger : Bytes → Bool
is_standby_snapshot_trigger data_bytes = bytes_eq data_bytes standby_snapshot_trigger

pub record SnapshotAdvertisement : Type 0 where
  pub group : ℕ
  pub last_index : ℕ
  pub last_term : ℕ
  pub snapshot_id : Bytes
  pub size : ℕ
  pub sha256_hex : Bytes
  pub fetch_url : Bytes

pub record Request : Type 0 where
  pub payload : Bytes

pub record Response : Type 0 where
  pub effects : Bytes

-- `Response::none`.
abbrev pub no_effects : Response
no_effects = record { effects = [] }
