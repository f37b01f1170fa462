-- ===== src/Net/Router/Calls.antt =====
-- A remote call reaches the group that it names and no other, and the router counts the nodes that
-- were ever registered.
use bf_multiraft.Base.{
  ℕ, ◌≡◌, refl, Bool, false, none, some, List, [], ◌∷◌, arith, ◌==◌, ◌||◌, if◌then◌else◌,
}
use bf_multiraft.OrdMap.{lookup, insert, contains_key}
use bf_multiraft.OrdMap.Keys.{contains_key-insert, contains_key-remove}
use bf_multiraft.Fsm.{Result, ok, err}
use bf_multiraft.Net.Dispatch.{Method, OpenRaft, Groups, handler, stopped_text, run_one}
use bf_multiraft.Net.Dispatch.Agreement.{run_one-handler}
use bf_multiraft.Net.Router.{
  Router, Fabric, Reply, replies, unreachable, as_reply, send, register_node, unregister_node,
  has_node, record_peer,
}

module _ (O : OpenRaft) where
  abbrev pub reply_of : {A : Type 0} → Result O.RaftError A → Reply A
  reply_of (ok a) = replies a
  reply_of (err e) = unreachable

  pub as_reply-some : {A : Type 0} (r : Result O.RaftError A) → as_reply O (some r) ≡ reply_of r
  as_reply-some (ok a) = refl
  as_reply-some (err e) = refl

  -- A call to a node that is connected and runs, on a group that it has, gives the answer of the
  -- group's handler, or `Unreachable` if that is an error, and changes that group alone.
  pub send-handler :
      (m : Method) (node group tx : ℕ) (req : O.Request m) (fab : Fabric O) (groups : Groups O)
      (raft : O.Raft)
      → lookup node fab.router.nodes ≡ some tx
      → lookup tx fab.running ≡ some groups
      → lookup group groups ≡ some raft
      → send O m node group req fab ≡ (
        reply_of (handler O m req raft).0,
        record fab {
          running = insert tx (insert group (handler O m req raft).1 groups) fab.running;
        },
      )
  unfolding send
  send-handler m node group tx req fab groups raft n t g =
      rw
        (
          n,
          t,
          run_one-handler O m group req groups raft g,
          (O.response_json m).round_trip (handler O m req raft).0,
          as_reply-some (handler O m req raft).0,
        )
        refl

  -- A call to a group that the node does not have is `Unreachable`.
  pub send-no_group :
      (m : Method) (node group tx : ℕ) (req : O.Request m) (fab : Fabric O) (groups : Groups O)
      → lookup node fab.router.nodes ≡ some tx
      → lookup tx fab.running ≡ some groups
      → lookup group groups ≡ none
      → (send O m node group req fab).0 ≡ unreachable
  unfolding send run_one stopped_text
  send-no_group m node group tx req fab groups n t g =
      rw (n, t, g, run_one, O.error_text m (O.fatal O.stopped)) refl

-- A registration under a channel, or the removal of one.
pub data Change : Type 0 where
  registers : ℕ → ℕ → Change
  unregisters : ℕ → Change

unfoldable pub change : Change → Router → Router
change (registers node tx) router = register_node node tx router
change (unregisters node) router = (unregister_node node router).1

unfoldable pub run : List Change → Router → Router
run [] router = router
run (c ∷ cs) router = run cs (change c router)

-- Whether a node is registered among the changes, and whether it is so after them.
unfoldable pub ever : ℕ → List Change → Bool
ever node [] = false
ever node (registers n tx ∷ cs) = (n == node) || ever node cs
ever node (unregisters n ∷ cs) = ever node cs

-- Whatever is registered and removed, the peers that are counted are those counted before and those
-- registered since: a removal takes none of them away.
pub run-peers :
    (node : ℕ) (cs : List Change) (router : Router)
    → contains_key node (run cs router).metrics.peers
      ≡ (contains_key node router.metrics.peers || ever node cs)
unfolding run change ever register_node unregister_node record_peer
run-peers node [] router = ground arith
run-peers node (registers n tx ∷ cs) router = ground (
  arith,
  run-peers node cs (register_node n tx router),
  contains_key-insert n node tt router.metrics.peers,
)
run-peers node (unregisters n ∷ cs) router =
    ground (arith, run-peers node cs (unregister_node n router).1)

-- A node that was registered is connected, and one that was unregistered is not; other nodes are as
-- they were.
pub has_node-change :
    (node n tx : ℕ) (router : Router)
    → (has_node node (register_node n tx router) ≡ ((n == node) || has_node node router))
      × (has_node node (unregister_node n router).1
          ≡ (if n == node then false else has_node node router))
unfolding has_node register_node unregister_node
has_node-change node n tx router =
    (contains_key-insert n node tx router.nodes, contains_key-remove n node router.nodes)
