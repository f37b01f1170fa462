-- ===== src/Demo/Tests.antt =====
-- The demo server at concrete nodes: node 1 leads group 7, node 2 follows.
use bf_multiraft.Base.{
  Option, of_some, ℕ, ◌*◌, ◌≡◌, ◌≢◌, refl, ap, length, true, false, Bool, none, some, [], ◌∷◌,
  arith, List, map, All, ◌==◌, contains,
}
use bf_multiraft.Io.{calm}
use bf_multiraft.Codec.{Codec}
use bf_multiraft.Fsm.Counter.{CounterFsm, new, value, encode_add}
use bf_multiraft.Fsm.Counter.ExactlyOnce.{apply_all}
use bf_multiraft.Fsm.Tests.{serde}
use bf_multiraft.Core.{voter, SnapshotAdvertisement}
use bf_multiraft.Catalog.Tests.{params}
use bf_multiraft.Facade.{in_process}
use bf_multiraft.Facade.Requests.{map_err}
use bf_multiraft.Facade.Tests.Nodes.{api, Handle, write_to, handle, ads_json, runtime}
use bf_multiraft.Net.Router.{new_router}
use bf_multiraft.Demo.{
  Args, voter_admins, config, node_config, validate_counts, peer_port, admin_addr_for_node,
  key_source,
}
use bf_multiraft.Demo.Ports.{Starts, node_config-Starts, ports-Distinct}
use bf_multiraft.Demo.Keys.Counted.{Call, Differs, increments, increments-Counted}
use bf_multiraft.Demo.Nodes.{Node, DemoState}
use bf_multiraft.Demo.Writes.{group_inc, propose_round}
use bf_multiraft.Demo.Writes.Rounds.{Proposed, first_answer, propose_round-Proposed}
use bf_multiraft.Demo.Writes.Entries.{Appending, Grows, Appends, total_entries, group_inc-Appends}
use bf_multiraft.Demo.Reads.{group_value}
use bf_multiraft.Demo.Reads.Answers.{Answers, group_value-Answers}
use bf_multiraft.Net.Channels.{GrpcRouter}
use bf_multiraft.Demo.Links.{metrics_links}
use bf_multiraft.Demo.Publish.{Process, publish_snapshot_ad}
use bf_multiraft.Demo.Publish.Delivered.{Delivered, publish_snapshot_ad-Delivered}
use bf_multiraft.Demo.Status.{print_status}
use bf_multiraft.Demo.Status.Agreement.{answer_shown, get_values, print_status-Values}

abbrev args : Args
args = record {
  node_id = some 2;
  base_port = 21000;
  groups = 2;
  data_dir = 100 ∷ [];
  nodes = 3;
  role = voter;
  no_auto_propose = false;
}

node_config-Starts_example : Starts args (config false 2 args)
unfolding node_config validate_counts
node_config-Starts_example = node_config-Starts false args (config false 2 args) refl

abbrev first : ℕ
first = 1

abbrev third : ℕ
third = 3

ports-Distinct_example :
    (peer_port 21000 first ≡ peer_port 21000 third → first ≡ third)
    × ((admin_addr_for_node 21000 first).port ≡ (admin_addr_for_node 21000 third).port
        → first ≡ third)
    × (peer_port 21000 first ≢ (admin_addr_for_node 21000 third).port)
ports-Distinct_example =
    ports-Distinct 21000 first third (omega arith) (omega arith, omega arith)
      (omega arith, omega arith)

abbrev node : ℕ → Bool → Node api
node id leads = record {
  node_id = id;
  peers = [];
  net = in_process;
  groups = (7, handle leads (10 * id)) ∷ [];
  runtime = runtime;
}

abbrev state : DemoState api
state = record {
  nodes = node 2 false ∷ node 1 true ∷ [];
  group_ids = 7 ∷ 8 ∷ [];
  keys = key_source 0;
  router = new_router;
}

written-Grows :
    (leads : Bool) (n : ℕ) (fsm : CounterFsm)
    → let h : Handle = record { leads = leads; entries = n; fsm = fsm } in
      Grows n (write_to h).1.entries (map_err api (write_to h).0)
written-Grows true n fsm = refl
written-Grows false n fsm = refl

abbrev law : Appending api
law = record { entries = λ h. h.entries; grows = λ bytes h. written-Grows h.leads h.entries h.fsm }

group_inc-Appends_example :
    Appends api law serde
      (total_entries api law serde 7 state.nodes)
      (total_entries api law serde 7
        (group_inc api serde 7 (record { delta = 1; idem = none }) state).1.nodes)
      (group_inc api serde 7 (record { delta = 1; idem = none }) state).0
group_inc-Appends_example =
    group_inc-Appends api law serde 7 (record { delta = 1; idem = none }) state

-- A round over group 8, which no node has, and group 7.
propose_round-Proposed_example :
    (idem : ℕ) × Proposed
      (total_entries api law serde 7 state.nodes)
      (total_entries api law serde 7
        (propose_round api serde (8 ∷ 7 ∷ []) (key_source 0) state.nodes).1)
      (first_answer api law serde 7 (encode_add serde 1 idem) state.nodes)
unfolding contains
propose_round-Proposed_example =
    propose_round-Proposed api law serde 7 (8 ∷ []) [] (key_source 0) state.nodes refl refl

group_value-Answers_example :
    Answers api 7 state (group_value api 7 state).1.nodes (group_value api 7 state).0
group_value-Answers_example = group_value-Answers api 7 state

abbrev ad : SnapshotAdvertisement
ad = record {
  group = 7;
  last_index = 3;
  last_term = 1;
  snapshot_id = 51 ∷ [];
  size = 2;
  sha256_hex = [];
  fetch_url = [];
}

abbrev one_ad : Option (List SnapshotAdvertisement) → Option SnapshotAdvertisement
one_ad none = none
one_ad (some []) = none
one_ad (some (a ∷ ads)) = some a

abbrev ad_json : Codec SnapshotAdvertisement
ad_json = record {
  to_vec = λ a. some (ads_json.to_vec (a ∷ []));
  from_slice = λ b. one_ad (ads_json.from_slice b);
  round_trip = λ a b h.
      of_some (λ x. one_ad (ads_json.from_slice x) ≡ some a) h
        (ap one_ad (ads_json.round_trip (a ∷ [])));
}

-- The request to node 1 arrives, those to the nodes 2 and 3 do not.
abbrev arrives : ℕ → Bool
arrives k = k == 0

abbrev process : ℕ → Process api params ads_json ad_json
process id = record {
  addr = admin_addr_for_node 21000 id;
  nodes = node id true ∷ [];
  file = calm none;
}

publish_snapshot_ad-Delivered_example :
    Delivered api params ads_json ad_json arrives
      (voter_admins args)
      ad
      (process 1 ∷ process 2 ∷ [])
      (ad_json.to_vec ad)
      (publish_snapshot_ad api params ads_json ad_json arrives
        (voter_admins args)
        ad
        (process 1 ∷ process 2 ∷ []))
publish_snapshot_ad-Delivered_example =
    publish_snapshot_ad-Delivered api params ads_json ad_json arrives (voter_admins args) ad
      (process 1 ∷ process 2 ∷ [])

abbrev links : GrpcRouter
links = record { self_id = 2; peers = []; channels = []; metrics = record { peers = [] } }

print_status-Values_example :
    (map (answer_shown api) (print_status api links state).0
      ≡ (get_values api state.group_ids state).0)
    × ((print_status api links state).1 ≡ (get_values api state.group_ids state).1)
    × All
        (λ line. line.unique_peer_links ≡ metrics_links api links state)
        (print_status api links state).0
print_status-Values_example = print_status-Values api links state

-- The processes 1 and 2; the first proposes twice.
abbrev calls : List Call
calls = (1, 0) ∷ (2, 0) ∷ (1, 1) ∷ []

differ_at_process : (a b : Call) → (a.0 ≡ b.0 → ⊥) → Differs a b
differ_at_process a b h = λ e. h (ap (λ (c : Call). c.0) e)

differ_at_count : (a b : Call) → (a.1 ≡ b.1 → ⊥) → Differs a b
differ_at_count a b h = λ e. h (ap (λ (c : Call). c.1) e)

increments-Counted_example : value (apply_all 7 (increments calls) new) 7 ≡ length calls
increments-Counted_example =
    increments-Counted 7 calls
      ((omega arith, omega arith), ((omega arith, omega arith), ((omega arith, omega arith), tt)))
      (
        (
          differ_at_process (1, 0) (2, 0) (λ e. omega arith),
          (differ_at_count (1, 0) (1, 1) (λ e. omega arith), tt),
        ),
        ((differ_at_process (2, 0) (1, 1) (λ e. omega arith), tt), (tt, tt)),
      )
      (omega arith)
