-- ===== src/Demo/Writes.antt =====
-- crates/multiraft-demo/src/main.rs: the requests that write to a group, and the background loop.
pub mod Entries
pub mod Rounds
use bf_multiraft.Base.{
  ℕ, Bool, true, false, not, Option, none, some, List, [], ◌∷◌, Bytes, contains, if◌then◌else◌,
  ◌==◌,
}
use bf_multiraft.Fsm.{Result, ok, err}
use bf_multiraft.Fsm.Counter.{CounterFsm, Serde, encode_add}
use bf_multiraft.Core.{MultiRaftError, ProposeOk}
use bf_multiraft.Facade.Requests
use bf_multiraft.Facade.Requests.{RaftApi, Groups}
use bf_multiraft.Net.Router.{Router}
use bf_multiraft.Demo.{KeySource, next_idem}
use bf_multiraft.Demo.Nodes.{
  Status, not_found, conflict, service_unavailable, internal_server_error, Pass, answered, fails,
  no_answer, Node, DemoState, on_node, leads, propose_on, try_nodes,
}

-- `delta` is an `i64`, as its bit pattern; the handler of serde puts 1 for one that is missing.
pub record IncReq : Type 0 where
  pub delta : ℕ
  pub idem : Option ℕ

pub record IncOkResp : Type 0 where
  pub index : ℕ
  pub term : ℕ
  pub group : ℕ

abbrev pub inc_ok : ℕ → ProposeOk → IncOkResp
inc_ok group done = record { index = done.index; term = done.term; group = group }

-- `unwrap_or_else(|| next_idem(&state))`.
abbrev pub idem_or_next : Option ℕ → KeySource → ℕ × KeySource
idem_or_next (some idem) source = (idem, source)
idem_or_next none source = next_idem source

module _ (A : RaftApi CounterFsm) (serde : Serde) where
  abbrev pub with_nodes :
      {B : Type 0} → DemoState A → Result Status B × List (Node A) → Result Status B × DemoState A
  with_nodes s (r, ns) = (r, record s { nodes = ns })

  -- What the request answers once the leaders have been tried, and once all nodes have been.
  abbrev pub last_answer :
      ℕ → Pass ProposeOk × List (Node A) → Result Status IncOkResp × List (Node A)
  last_answer group (answered done, ns) = (ok (inc_ok group done), ns)
  last_answer group (fails, ns) = (err conflict, ns)
  last_answer group (no_answer, ns) = (err service_unavailable, ns)

  abbrev pub or_any_node :
      ℕ → Bytes → Pass ProposeOk × List (Node A) → Pass ProposeOk × List (Node A)
  or_any_node group data_bytes (answered done, ns) = (answered done, ns)
  or_any_node group data_bytes (fails, ns) = (fails, ns)
  or_any_node group data_bytes (no_answer, ns) =
      try_nodes A (λ n. true) (propose_on A group data_bytes) ns

  -- The two loops of `group_inc`.
  unfoldable pub propose_any : ℕ → Bytes → List (Node A) → Pass ProposeOk × List (Node A)
  propose_any group data_bytes ns =
      or_any_node group data_bytes (try_nodes A (leads A group) (propose_on A group data_bytes) ns)

  unfoldable pub group_inc : ℕ → IncReq → DemoState A → Result Status IncOkResp × DemoState A
  group_inc id body s =
      let (idem, source) = idem_or_next body.idem s.keys in
      if not (contains s.group_ids id)
      then (err not_found, s)
      else with_nodes (record s { keys = source })
          (last_answer id (propose_any id (encode_add serde body.delta idem) s.nodes))

  unfoldable pub admin_standby_snapshot : ℕ → DemoState A → Result Status IncOkResp × DemoState A
  admin_standby_snapshot id s =
      if not (contains s.group_ids id)
      then (err not_found, s)
      else with_nodes s (
          last_answer id
            (try_nodes A (leads A id) (on_node A (Requests.trigger_standby_snapshot A id)) s.nodes))

  abbrev added : Pass (Unit {0}) × List (Node A) → Result Status (Unit {0}) × List (Node A)
  added (answered u, ns) = (ok u, ns)
  added (fails, ns) = (err conflict, ns)
  added (no_answer, ns) = (err service_unavailable, ns)

  abbrev add_standby_on : ℕ → ℕ → Node A → Result MultiRaftError (Unit {0}) × Node A
  add_standby_on group standby_id n = on_node A (Requests.add_standby A n.peers group standby_id) n

  unfoldable pub admin_add_standby : ℕ → ℕ → DemoState A → Result Status (Unit {0}) × DemoState A
  admin_add_standby group standby_id s =
      with_nodes s (added (try_nodes A (leads A group) (add_standby_on group standby_id) s.nodes))

  abbrev and_source : Node A → KeySource × List (Node A) → KeySource × List (Node A)
  and_source n (source, ns) = (source, n ∷ ns)

  -- The loop over the nodes for one group: the first that leads it gets a proposal, and no other.
  unfoldable pub propose_first : ℕ → KeySource → List (Node A) → KeySource × List (Node A)
  propose_first gid source [] = (source, [])
  propose_first gid source (n ∷ ns) =
      let rest = propose_first gid source ns in
      let (idem, source') = next_idem source in
      if leads A gid n
      then (source', (propose_on A gid (encode_add serde 1 idem) n).1 ∷ ns)
      else and_source n rest

  -- One round of `propose_loop`, over the groups.
  unfoldable pub propose_round : List ℕ → KeySource → List (Node A) → KeySource × List (Node A)
  propose_round [] source ns = (source, ns)
  propose_round (gid ∷ gids) source ns =
      let (source', ns') = propose_first gid source ns in propose_round gids source' ns'

  abbrev stopped :
      Node A
      → List (Node A)
      → Result MultiRaftError (Unit {0}) × Groups A × Router
      → Result Status ℕ × List (Node A) × Router
  stopped n ns (ok u, groups, router) = (ok n.node_id, record n { groups = groups } ∷ ns, router)
  stopped n ns (err e, groups, router) =
      (err internal_server_error, record n { groups = groups } ∷ ns, router)

  abbrev behind :
      Node A → Result Status ℕ × List (Node A) × Router → Result Status ℕ × List (Node A) × Router
  behind n (r, ns, router) = (r, n ∷ ns, router)

  -- The first node with the id is shut down; the answer is its id.
  unfoldable pub shutdown_first :
      ℕ → List (Node A) → Router → Result Status ℕ × List (Node A) × Router
  shutdown_first id [] router = (err not_found, [], router)
  shutdown_first id (n ∷ ns) router =
      let rest = shutdown_first id ns router in
      if n.node_id == id
      then stopped n ns (Requests.shutdown A n.net n.node_id n.groups router)
      else behind n rest

  unfoldable pub shutdown_node : ℕ → DemoState A → Result Status ℕ × DemoState A
  shutdown_node id s =
      let (r, ns, router) = shutdown_first id s.nodes s.router in
      (r, record s { nodes = ns; router = router })
