-- ===== src/Net/Tests.antt =====
-- Dispatch and channels at concrete messages. A group is a number that answers what it is and grows
-- by the request.
use bf_multiraft.Base.{
  ℕ, zero, suc, ◌+◌, ◌≡◌, ◌≤◌, All, length, refl, true, Option, none, some, List, [], ◌∷◌, Bytes,
}
use bf_multiraft.OrdMap.{lookup, insert, contains_key}
use bf_multiraft.Fsm.{Result, ok, err}
use bf_multiraft.Core.{localhost, SocketAddr}
use bf_multiraft.Net.Dispatch.{
  append, vote, transfer_leader, OpenRaft, Groups, path_of, method_of, run_one, demux_raft_call,
  as_answer, handler,
}
use bf_multiraft.Net.Dispatch.Agreement.{
  method_of-path_of, demux_raft_call-run_one, message, run_one-handler,
}
use bf_multiraft.Net.Router.{Fabric, replies, send}
use bf_multiraft.Net.Router.Calls.{send-handler, Change, registers, unregisters}
use bf_multiraft.Net.Grpc.{grpc_send, grpc_send-handler}
use bf_multiraft.Net.Channels.{
  GrpcRouter, channel_for, step, run, begun, new, collect_peers, unique_peer_links,
}
use bf_multiraft.Net.Channels.Links.{IsDone, run-Links}
use bf_multiraft.Net.Channels.Reuse.{task_at, run-same_channel}

abbrev get_number : Bytes → Option ℕ
get_number (n ∷ []) = some n
get_number _ = none

abbrev put_result : Result ℕ ℕ → Bytes
put_result (ok n) = 0 ∷ n ∷ []
put_result (err e) = 1 ∷ e ∷ []

abbrev get_result : Bytes → Option (Result ℕ ℕ)
get_result (zero ∷ n ∷ []) = some (ok n)
get_result (suc _ ∷ e ∷ []) = some (err e)
get_result _ = none

result_trip : (r : Result ℕ ℕ) → get_result (put_result r) ≡ some r
result_trip (ok n) = refl
result_trip (err e) = refl

abbrev put_unit : Result ℕ (Unit {0}) → Bytes
put_unit (ok u) = 0 ∷ []
put_unit (err e) = 1 ∷ e ∷ []

abbrev get_unit : Bytes → Option (Result ℕ (Unit {0}))
get_unit (zero ∷ []) = some (ok tt)
get_unit (suc _ ∷ e ∷ []) = some (err e)
get_unit _ = none

unit_trip : (r : Result ℕ (Unit {0})) → get_unit (put_unit r) ≡ some r
unit_trip (ok u) = refl
unit_trip (err e) = refl

abbrev raft : OpenRaft
raft = record {
  Raft = ℕ;
  Request = λ m. ℕ;
  Response = λ m. ℕ;
  RaftError = ℕ;
  Fatal = ℕ;
  fatal = λ f. f;
  stopped = 5;
  append_entries = λ r s. (ok s, s + r);
  raft_vote = λ r s. (ok s, s + r);
  install_full_snapshot = λ r s. (ok s, s + r);
  handle_transfer_leader = λ r s. (err 6, s);
  request_json =
      λ m. record { to_vec = λ n. n ∷ []; from_slice = get_number; round_trip = λ n. refl };
  response_json =
      λ m. record { to_vec = put_result; from_slice = get_result; round_trip = result_trip };
  unit_json = record { to_vec = put_unit; from_slice = get_unit; round_trip = unit_trip };
  error_text = λ m e. refl;
  is_utf8 = λ b. true;
  request_utf8 = λ m r. refl;
  response_utf8 = λ m r. refl;
}

abbrev groups : Groups raft
groups = (7, 20) ∷ (8, 30) ∷ []

method_of-path_of_example : method_of (path_of transfer_leader) ≡ some transfer_leader
method_of-path_of_example = method_of-path_of transfer_leader

demux_raft_call-run_one_example :
    demux_raft_call raft (message raft vote 7 2) groups
    ≡ as_answer raft (run_one raft (message raft vote 7 2) groups)
demux_raft_call-run_one_example = demux_raft_call-run_one raft (message raft vote 7 2) groups refl

run_one-handler_example :
    run_one raft (message raft append 8 2) groups ≡ some (0 ∷ 30 ∷ [], (7, 20) ∷ (8, 32) ∷ [])
unfolding handler lookup insert
run_one-handler_example = run_one-handler raft append 8 2 groups 30 refl

-- Node 1 has channel 10 and node 2 channel 11, which nobody receives from.
abbrev fabric : Fabric raft
fabric = record {
  router = record {
    nodes = (1, 10) ∷ (2, 11) ∷ [];
    metrics = record { peers = (1, tt) ∷ (2, tt) ∷ [] };
  };
  running = (10, groups) ∷ [];
}

send-handler_example :
    send raft vote 1 7 3 fabric
    ≡ (replies 20, record fabric { running = (10, (7, 23) ∷ (8, 30) ∷ []) ∷ [] })
unfolding handler lookup insert
send-handler_example = send-handler raft vote 1 7 10 3 fabric groups 20 refl refl refl

grpc_send-handler_example :
    grpc_send raft vote true 7 3 groups ≡ (replies 20, (7, 23) ∷ (8, 30) ∷ [])
unfolding handler lookup insert
grpc_send-handler_example = grpc_send-handler raft vote 7 3 groups 20 refl

abbrev changes : List Change
changes = registers 1 10 ∷ unregisters 1 ∷ registers 2 11 ∷ []

abbrev grpc : GrpcRouter
grpc = record {
  self_id = 0;
  peers = (4, record { ip = localhost; port = 20004 }) ∷ [];
  channels = [];
  metrics = record { peers = [] };
}

-- Both tasks connect to node 4, the second with channel 51 before the first with channel 50.
abbrev schedule : List (ℕ × Option ℕ)
schedule =
    (0, none) ∷ (1, none) ∷ (0, some 50) ∷ (1, some 51) ∷ (1, none) ∷ (0, none) ∷ (1, none) ∷ []

run-same_channel_example :
    (◌≡◌ {A = ℕ} 51 51) × (lookup 4 (run schedule (begun (4 ∷ 4 ∷ [])) grpc).0.channels ≡ some 51)
unfolding task_at run step channel_for begun lookup insert
run-same_channel_example = run-same_channel grpc (4 ∷ 4 ∷ []) schedule 0 1 4 51 51 refl refl

abbrev peers : List (ℕ × SocketAddr)
peers = (4, record { ip = localhost; port = 20004 }) ∷ []

run-Links_example :
    let (r, ts) = run schedule (begun (4 ∷ 4 ∷ [])) (new peers 0) in
    ((p : ℕ)
      → contains_key p r.metrics.peers ≡ true
      → (contains_key p r.channels ≡ true) × (contains_key p (collect_peers peers []) ≡ true))
    × (unique_peer_links r ≤ length (collect_peers peers []))
    × (All (λ t. IsDone t.stage) ts → unique_peer_links r ≡ length r.channels)
run-Links_example = run-Links peers 0 (4 ∷ 4 ∷ []) schedule
