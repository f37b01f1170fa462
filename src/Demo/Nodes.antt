-- ===== src/Demo/Nodes.antt =====
-- crates/multiraft-demo/src/main.rs: the state of the demo server, and the loops in which a request
-- goes over the nodes of its process. What a call on a group leaves is what the next call on it
-- finds.
use bf_multiraft.Base.{ℕ, Bool, Option, none, some, List, [], ◌∷◌, Bytes, if◌then◌else◌}
use bf_multiraft.Fsm.{Result, ok, err}
use bf_multiraft.Fsm.Counter.{CounterFsm}
use bf_multiraft.Core.{MultiRaftError, not_leader, unknown_group, other, SocketAddr, ProposeOk}
use bf_multiraft.Facade.{NetBackend}
use bf_multiraft.Facade.Runtime.{SnapshotRuntime}
use bf_multiraft.Facade.Requests
use bf_multiraft.Facade.Requests.{RaftApi, Groups}
use bf_multiraft.Net.Router.{Router}
use bf_multiraft.Demo.{KeySource}

-- The statuses of HTTP that are not 200.
pub data Status : Type 0 where
  not_found conflict service_unavailable internal_server_error : Status

-- How a loop over the nodes ends: a node has answered, a node has failed, or it has come to the
-- end.
pub data Pass (B : Type 0) : Type 0 where
  answered : B → Pass B
  fails : Pass B
  no_answer : Pass B

module _ (A : RaftApi CounterFsm) where
  -- A node, with what it keeps of its snapshots.
  pub record Node : Type 0 where
    pub node_id : ℕ
    pub peers : List (ℕ × SocketAddr)
    pub net : NetBackend
    pub groups : Groups A
    pub runtime : SnapshotRuntime

  -- The nodes in process share the router.
  pub record DemoState : Type 0 where
    pub nodes : List Node
    pub group_ids : List ℕ
    pub keys : KeySource
    pub router : Router

  -- A call on the groups of a node.
  abbrev pub on_node :
      {B : Type 0}
      → (Groups A → Result MultiRaftError B × Groups A)
      → Node
      → Result MultiRaftError B × Node
  on_node call n = let (r, groups) = call n.groups in (r, record n { groups = groups })

  abbrev pub leads : ℕ → Node → Bool
  leads group n = Requests.is_leader A group n.groups

  abbrev pub propose_on : ℕ → Bytes → Node → Result MultiRaftError ProposeOk × Node
  propose_on group bytes = on_node (Requests.propose A group bytes)

  abbrev pub and_node : {B : Type 0} → Node → B × List Node → B × List Node
  and_node n (b, ns) = (b, n ∷ ns)

  -- The loop goes on after `NotLeader` alone.
  abbrev pub after :
      {B : Type 0}
      → Result MultiRaftError B × Node
      → List Node
      → Pass B × List Node
      → Pass B × List Node
  after (ok b, n) ns rest = (answered b, n ∷ ns)
  after (err (not_leader leader), n) ns rest = and_node n rest
  after (err (unknown_group g), n) ns rest = (fails, n ∷ ns)
  after (err other, n) ns rest = (fails, n ∷ ns)

  -- The loop over the nodes for which `visits` holds.
  unfoldable pub try_nodes :
      {B : Type 0}
      → (Node → Bool)
      → (Node → Result MultiRaftError B × Node)
      → List Node
      → Pass B × List Node
  try_nodes visits call [] = (no_answer, [])
  try_nodes visits call (n ∷ ns) =
      let rest = try_nodes visits call ns in
      if visits n then after (call n) ns rest else and_node n rest

  unfoldable pub first_leader : ℕ → List Node → Option ℕ
  first_leader group [] = none
  first_leader group (n ∷ ns) = elim (Requests.leader A group n.groups) [
    | some l ↦ some l
    | none ↦ first_leader group ns
  ]
