-- ===== src/Net/Dispatch/Agreement.antt =====
-- Both transports dispatch alike, and each remote call reaches its handler.
use bf_multiraft.Base.{
  ℕ, ◌≡◌, refl, true, Option-cases, some, inl, inr, bytes_eq, Bool-cases, Bytes, codes,
}
use bf_multiraft.OrdMap.{lookup, insert}
use bf_multiraft.Net.Dispatch.{
  Method, append, vote, snapshot, transfer_leader, OpenRaft, path_of, method_of, Groups,
  NodeMessage, handler, serve, run_one, demux_raft_call, as_answer, call_api, serve_path,
}

-- The path of a method is dispatched to it.
pub method_of-path_of : (m : Method) → method_of (path_of m) ≡ some m
unfolding method_of path_of bytes_eq
method_of-path_of append = refl
method_of-path_of vote = refl
method_of-path_of snapshot = refl
method_of-path_of transfer_leader = refl

module _ (O : OpenRaft) where
  -- The two copies of the `match` on the path agree.
  call_api-serve_path :
      (path payload : Bytes) (raft : O.Raft)
      → call_api O path payload raft ≡ serve_path O (method_of path) payload raft
  unfolding call_api method_of path_of
  call_api-serve_path path payload raft = elim (Bool-cases (bytes_eq path (codes "/raft/append"))) [
    | inl a ↦ rw a refl
    | inr a ↦ elim (Bool-cases (bytes_eq path (codes "/raft/snapshot"))) [
      | inl b ↦ rw (a, b) refl
      | inr b ↦ elim (Bool-cases (bytes_eq path (codes "/raft/vote"))) [
        | inl c ↦ rw (a, b, c) refl
        | inr c ↦ elim (Bool-cases (bytes_eq path (codes "/raft/transfer_leader"))) [
          | inl d ↦ rw (a, b, c, d) refl
          | inr d ↦ rw (a, b, c, d) refl
        ]
      ]
    ]
  ]

  -- On a payload in UTF-8 the gRPC server answers what the node in process answers, and leaves the
  -- same groups; it panics where the other does.
  pub demux_raft_call-run_one :
      (msg : NodeMessage O) (groups : Groups O)
      → O.is_utf8 msg.payload ≡ true
      → demux_raft_call O msg groups ≡ as_answer O (run_one O msg groups)
  unfolding demux_raft_call run_one
  demux_raft_call-run_one msg groups h = elim (Option-cases (lookup msg.group_id groups)) [
    | inl e ↦ rw (e, demux_raft_call, run_one) refl
    | inr (raft, e) ↦
        rw (e, h, demux_raft_call, run_one, call_api-serve_path msg.path msg.payload raft) refl
  ]

  abbrev pub message : (m : Method) → ℕ → O.Request m → NodeMessage O
  message m group req = record {
    group_id = group;
    path = path_of m;
    payload = (O.request_json m).to_vec req;
  }

  -- A request to a group of the node is answered by the handler of its method, on that group.
  pub run_one-handler :
      (m : Method) (group : ℕ) (req : O.Request m) (groups : Groups O) (raft : O.Raft)
      → lookup group groups ≡ some raft
      → run_one O (message m group req) groups
        ≡ some (
          (O.response_json m).to_vec (handler O m req raft).0,
          insert group (handler O m req raft).1 groups,
        )
  unfolding run_one serve
  run_one-handler m group req groups raft h =
      rw (h, run_one, method_of-path_of m, (O.request_json m).round_trip req, serve) refl
