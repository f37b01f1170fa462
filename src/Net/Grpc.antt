-- ===== src/Net/Grpc.antt =====
-- crates/multiraft-net/src/grpc/router.rs: a remote call over gRPC, once `channel_for` has given a
-- channel or an error, with the calls of `GroupRouter` that go through it.
use bf_multiraft.Base.{ℕ, ◌≡◌, refl, Bool, true, Option, none, some, Bytes, if◌then◌else◌}
use bf_multiraft.OrdMap.{lookup, insert}
use bf_multiraft.Fsm.{Result, ok, err}
use bf_multiraft.Net.Dispatch.{
  Method, append, vote, snapshot, transfer_leader, OpenRaft, Groups, Status, path_of, handler,
  demux_raft_call,
}
use bf_multiraft.Net.Dispatch.Agreement.{demux_raft_call-run_one, message, run_one-handler}
use bf_multiraft.Net.Router.{Reply, unreachable, as_reply}
use bf_multiraft.Net.Router.Calls.{reply_of, as_reply-some}

module _ (O : OpenRaft) where
  -- A panic of the server's handler is an error of the call.
  abbrev grpc_answer :
      (m : Method)
      → Groups O
      → Option (Result (Status O) Bytes × Groups O)
      → Reply (O.Response m) × Groups O
  grpc_answer m groups none = (unreachable, groups)
  grpc_answer m groups (some (err status, groups')) = (unreachable, groups')
  grpc_answer m groups (some (ok text, groups')) = (
    if O.is_utf8 text then as_reply O ((O.response_json m).from_slice text) else unreachable,
    groups',
  )

  -- The call from a node that has a channel, or none, to one with the given groups.
  unfoldable pub grpc_send :
      (m : Method) → Bool → ℕ → O.Request m → Groups O → Reply (O.Response m) × Groups O
  grpc_send m has_channel to_group req groups =
      if has_channel
      then grpc_answer m groups (
          demux_raft_call O
            (record {
              group_id = to_group;
              path = path_of m;
              payload = (O.request_json m).to_vec req;
            })
            groups)
      else (unreachable, groups)

  unfoldable pub append_entries :
      Bool → ℕ → O.Request append → Groups O → Reply (O.Response append) × Groups O
  append_entries has_channel group_id rpc = grpc_send append has_channel group_id rpc

  unfoldable pub request_vote :
      Bool → ℕ → O.Request vote → Groups O → Reply (O.Response vote) × Groups O
  request_vote has_channel group_id rpc = grpc_send vote has_channel group_id rpc

  unfoldable pub full_snapshot :
      Bool → ℕ → O.Request snapshot → Groups O → Reply (O.Response snapshot) × Groups O
  full_snapshot has_channel group_id rpc = grpc_send snapshot has_channel group_id rpc

  unfoldable pub transfer :
      Bool
      → ℕ
      → O.Request transfer_leader
      → Groups O
      → Reply (O.Response transfer_leader) × Groups O
  transfer has_channel group_id req = grpc_send transfer_leader has_channel group_id req

  -- Over a channel, a call to a group that the peer has gives the answer of the group's handler, or
  -- `Unreachable` if that is an error, and changes that group alone.
  pub grpc_send-handler :
      (m : Method) (group : ℕ) (req : O.Request m) (groups : Groups O) (raft : O.Raft)
      → lookup group groups ≡ some raft
      → grpc_send m true group req groups
        ≡ (reply_of O (handler O m req raft).0, insert group (handler O m req raft).1 groups)
  unfolding grpc_send
  grpc_send-handler m group req groups raft h =
      rw
        (
          demux_raft_call-run_one O (message O m group req) groups (O.request_utf8 m req),
          run_one-handler O m group req groups raft h,
          O.response_utf8 m (handler O m req raft).0,
          (O.response_json m).round_trip (handler O m req raft).0,
          as_reply-some O (handler O m req raft).0,
        )
        refl
