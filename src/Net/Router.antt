-- ===== src/Net/Router.antt =====
-- crates/multiraft-net/src/conn_metrics.rs and router.rs: the channels between the nodes of one
-- process, with the calls of network.rs that send over them. A channel is a number; the node that
-- receives from it runs as long as it is among the running ones.
pub mod Calls
use bf_multiraft.Base.{
  ℕ, ◌≡◌, Bool, true, false, Option, none, some, List, [], ◌∷◌, Bytes, length, if◌then◌else◌, ◌==◌,
  ◌||◌,
}
use bf_multiraft.OrdMap.{OrdMap, lookup, insert, remove, contains_key}
use bf_multiraft.Fsm.{Result, ok, err}
use bf_multiraft.Net.Dispatch.{
  Method, append, vote, snapshot, transfer_leader, OpenRaft, NodeMessage, Groups, run_one, path_of,
}

-- A `BTreeSet` is a map to nothing.
pub record ConnMetrics : Type 0 where
  pub peers : OrdMap (Unit {0})

unfoldable pub record_peer : ℕ → ConnMetrics → ConnMetrics
record_peer peer metrics = record { peers = insert peer tt metrics.peers }

pub record Router : Type 0 where
  pub nodes : OrdMap ℕ
  pub metrics : ConnMetrics

abbrev pub new_router : Router
new_router = record { nodes = []; metrics = record { peers = [] } }

unfoldable pub register_node : ℕ → ℕ → Router → Router
register_node node_id tx router = record {
  nodes = insert node_id tx router.nodes;
  metrics = record_peer node_id router.metrics;
}

unfoldable pub unregister_node : ℕ → Router → Option ℕ × Router
unregister_node node_id router =
    (lookup node_id router.nodes, record router { nodes = remove node_id router.nodes })

unfoldable pub unique_peer_links : Router → ℕ
unique_peer_links router = length router.metrics.peers

unfoldable pub has_node : ℕ → Router → Bool
has_node node_id router = contains_key node_id router.nodes

-- What a remote call gives: the answer, `Unreachable`, or a panic on a text that is no answer.
pub data Reply (A : Type 0) : Type 0 where
  replies : A → Reply A
  unreachable panics : Reply A

module _ (O : OpenRaft) where
  pub record Fabric : Type 0 where
    pub router : Router
    pub running : OrdMap (Groups O)

  -- The receiver handles the message. It stops with a panic, and the sender's wait then fails.
  abbrev pub received : ℕ → Fabric → Option (Bytes × Groups O) → Option Bytes × Fabric
  received tx fab none = (none, record fab { running = remove tx fab.running })
  received tx fab (some (res, groups)) =
      (some res, record fab { running = insert tx groups fab.running })

  abbrev pub deliver : ℕ → NodeMessage O → Fabric → Option (Groups O) → Option Bytes × Fabric
  deliver tx msg fab none = (none, fab)
  deliver tx msg fab (some groups) = received tx fab (run_one O msg groups)

  abbrev pub deliver_to : NodeMessage O → Fabric → Option ℕ → Option Bytes × Fabric
  deliver_to msg fab none = (none, fab)
  deliver_to msg fab (some tx) = deliver tx msg fab (lookup tx fab.running)

  abbrev pub as_reply : {A : Type 0} → Option (Result O.RaftError A) → Reply A
  as_reply none = panics
  as_reply (some (ok a)) = replies a
  as_reply (some (err e)) = unreachable

  abbrev pub decoded : (m : Method) → Option Bytes × Fabric → Reply (O.Response m) × Fabric
  decoded m (none, fab) = (unreachable, fab)
  decoded m (some text, fab) = (as_reply ((O.response_json m).from_slice text), fab)

  -- `send`, at the type of each of the calls of `GroupRouter`.
  unfoldable pub send : (m : Method) → ℕ → ℕ → O.Request m → Fabric → Reply (O.Response m) × Fabric
  send m to_node to_group req fab =
      let msg : NodeMessage O = record {
        group_id = to_group;
        path = path_of m;
        payload = (O.request_json m).to_vec req;
      } in
      decoded m (deliver_to msg fab (lookup to_node fab.router.nodes))

  -- The calls of `GroupRouter`; the request of a full snapshot is its vote, its meta and its data.
  unfoldable pub append_entries :
      ℕ → ℕ → O.Request append → Fabric → Reply (O.Response append) × Fabric
  append_entries target group_id rpc = send append target group_id rpc

  unfoldable pub request_vote : ℕ → ℕ → O.Request vote → Fabric → Reply (O.Response vote) × Fabric
  request_vote target group_id rpc = send vote target group_id rpc

  unfoldable pub full_snapshot :
      ℕ → ℕ → O.Request snapshot → Fabric → Reply (O.Response snapshot) × Fabric
  full_snapshot target group_id rpc = send snapshot target group_id rpc

  unfoldable pub transfer :
      ℕ → ℕ → O.Request transfer_leader → Fabric → Reply (O.Response transfer_leader) × Fabric
  transfer target group_id req = send transfer_leader target group_id req
