-- ===== src/Demo.antt =====
-- crates/multiraft-demo/src/main.rs: the addresses of the demo server's nodes, the checks of its
-- arguments, and the idempotency keys that it makes up. A `u16` is a number below 65536.
pub mod Ports
pub mod Keys
pub mod Nodes
pub mod Writes
pub mod Reads
pub mod Startup
pub mod Run
pub mod Snapshots
pub mod Publish
pub mod Status
pub mod Links
mod Tests
use bf_multiraft.Base.{
  ℕ, zero, suc, ◌+◌, ◌-◌, ◌*◌, ◌%◌, ◌^◌, ◌≡◌, Bool, true, false, not, ◌||◌, ◌&&◌, Option, none,
  some, List, [], ◌∷◌, Bytes, map, ltb, if◌then◌else◌,
}
use Prim.Native.Nat.{bit_and, bit_or}
use bf_multiraft.Core.{
  ClusterConfig, NodeRole, voter, standby, SnapshotMode, disabled, standby_offload, SocketAddr,
  localhost,
}
use bf_multiraft.Facade.{is_standby}

pub record Args : Type 0 where
  pub node_id : Option ℕ
  pub base_port : ℕ
  pub groups : ℕ
  pub data_dir : Bytes
  pub nodes : ℕ
  pub role : NodeRole
  pub no_auto_propose : Bool

-- `saturating_add` on a `u16`.
abbrev pub saturating_add : ℕ → ℕ → ℕ
saturating_add a b = if ltb (a + b) 65536 then a + b else 65535

-- `(id as u16).saturating_sub(1)`.
abbrev pub position : ℕ → ℕ
position id = (id % 65536) - 1

-- `(first..first + count).collect()`.
abbrev pub range : ℕ → ℕ → List ℕ
range first zero = []
range first (suc count) = first ∷ range (suc first) count

abbrev pub peer_port : ℕ → ℕ → ℕ
peer_port base_port pid = saturating_add base_port (position pid)

abbrev pub at_localhost : ℕ → SocketAddr
at_localhost port = record { ip = localhost; port = port }

abbrev pub peer : ℕ → ℕ → ℕ × SocketAddr
peer base_port pid = (pid, at_localhost (peer_port base_port pid))

unfoldable pub peer_addrs : ℕ → ℕ → List (ℕ × SocketAddr)
peer_addrs base_port nodes = map (peer base_port) (range 1 nodes)

unfoldable pub admin_addr_for_node : ℕ → ℕ → SocketAddr
admin_addr_for_node base_port node_id =
    at_localhost (saturating_add (saturating_add base_port 100) (position node_id))

-- Whether the counts are accepted.
unfoldable pub validate_counts : Args → Bool
validate_counts args = if ltb args.nodes 1 then false else if ltb args.groups 1 then false else true

-- The admin addresses of the voters, to which a standby publishes.
abbrev pub voter_admins : Args → List SocketAddr
voter_admins args = map (admin_addr_for_node args.base_port) (range 1 args.nodes)

-- The members of each group are the voters.
abbrev pub voters : Args → List ℕ
voters args = range 1 args.nodes

abbrev pub group_ids : Args → List ℕ
group_ids args = range 0 args.groups

-- `standby_env` tells whether the variable `STANDBY` is 1.
abbrev pub snapshot_mode : Bool → NodeRole → SnapshotMode
snapshot_mode standby_env role =
    if is_standby role || standby_env then standby_offload else disabled

abbrev pub max : ℕ → ℕ → ℕ
max a b = if ltb a b then b else a

abbrev pub config : Bool → ℕ → Args → ClusterConfig
config standby_env node_id args = record {
  node_id = node_id;
  peers = peer_addrs args.base_port (max args.nodes node_id);
  data_dir = args.data_dir;
  heartbeat_interval_ms = 100;
  election_timeout_min_ms = 300;
  election_timeout_max_ms = 600;
  role = args.role;
  snapshot_mode = snapshot_mode standby_env args.role;
  snapshot_keep = 2;
  admin_advertise_addr = some (admin_addr_for_node args.base_port node_id);
}

abbrev pub with_node_id : Bool → Args → Option ℕ → Option ClusterConfig
with_node_id standby_env args none = none
with_node_id standby_env args (some node_id) =
    if ltb node_id 1
    then none
    else if not (is_standby args.role) && ltb args.nodes node_id
    then none
    else some (config standby_env node_id args)

-- The configuration with which `run_node` starts its node, unless it refuses the arguments.
unfoldable pub node_config : Bool → Args → Option ClusterConfig
node_config standby_env args =
    if validate_counts args then with_node_id standby_env args args.node_id else none

-- The configuration of one node of `run_cluster`; `node_dir` is its directory below `data_dir`.
unfoldable pub cluster_config : (ℕ → Bytes) → Args → ℕ → ClusterConfig
cluster_config node_dir args id = record {
  node_id = id;
  peers = peer_addrs args.base_port args.nodes;
  data_dir = node_dir id;
  heartbeat_interval_ms = 100;
  election_timeout_min_ms = 300;
  election_timeout_max_ms = 600;
  role = voter;
  snapshot_mode = disabled;
  snapshot_keep = 2;
  admin_advertise_addr = some (at_localhost args.base_port);
}

-- The counter and the high bits of the keys.
pub record KeySource : Type 0 where
  pub idem : ℕ
  pub node_id_base : ℕ

-- `node_id << 32` on a `u64`, and the counter that starts at 1.
abbrev pub key_source : ℕ → KeySource
key_source node_id = record { idem = 1; node_id_base = node_id * 2 ^ 32 % 2 ^ 64 }

-- `fetch_add` wraps.
unfoldable pub next_idem : KeySource → ℕ × KeySource
next_idem s =
    (bit_or s.node_id_base (bit_and s.idem 0xffffffff), record s { idem = (s.idem + 1) % 2 ^ 64 })
