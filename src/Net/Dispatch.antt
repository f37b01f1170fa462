-- ===== src/Net/Dispatch.antt =====
-- crates/multiraft-net/src/api.rs, node.rs and grpc/server.rs: what a node does with a message for
-- one of its groups, in process and over gRPC.
pub mod Agreement
use bf_multiraft.Base.{
  ℕ, ◌≡◌, Bool, true, false, not, Option, none, some, List, [], ◌∷◌, Bytes, codes, bytes_eq,
  if◌then◌else◌,
}
use bf_multiraft.OrdMap.{OrdMap, lookup, insert}
use bf_multiraft.Codec.{TotalCodec}
use bf_multiraft.Fsm.{Result, ok, err}

-- The remote calls of Raft.
pub data Method : Type 0 where
  append vote snapshot transfer_leader : Method

-- openraft's handle of a group, whose calls change the group, and serde_json for what they
-- exchange.
pub record OpenRaft : Type 1 where
  pub Raft : Type 0
  pub Request : Method → Type 0
  pub Response : Method → Type 0
  pub RaftError : Type 0
  pub Fatal : Type 0
  pub fatal : Fatal → RaftError
  pub stopped : Fatal
  pub append_entries : Request append → Raft → Result RaftError (Response append) × Raft
  pub raft_vote : Request vote → Raft → Result RaftError (Response vote) × Raft
  pub install_full_snapshot : Request snapshot → Raft → Result Fatal (Response snapshot) × Raft
  pub handle_transfer_leader :
      Request transfer_leader → Raft → Result Fatal (Response transfer_leader) × Raft
  pub request_json : (m : Method) → TotalCodec (Request m)
  pub response_json : (m : Method) → TotalCodec (Result RaftError (Response m))
  pub unit_json : TotalCodec (Result RaftError (Unit {0}))
  -- The text of an error does not depend on the type of the answers.
  pub error_text :
      (m : Method) (e : RaftError)
      → (response_json m).from_slice (unit_json.to_vec (err e)) ≡ some (err e)
  -- `String::from_utf8`: texts that serde_json writes are UTF-8.
  pub is_utf8 : Bytes → Bool
  pub response_utf8 :
      (m : Method) (r : Result RaftError (Response m)) → is_utf8 ((response_json m).to_vec r) ≡ true
  pub request_utf8 : (m : Method) (r : Request m) → is_utf8 ((request_json m).to_vec r) ≡ true

unfoldable pub path_of : Method → Bytes
path_of append = codes "/raft/append"
path_of vote = codes "/raft/vote"
path_of snapshot = codes "/raft/snapshot"
path_of transfer_leader = codes "/raft/transfer_leader"

-- The `match` on the path.
unfoldable pub method_of : Bytes → Option Method
unfolding path_of
method_of path =
    if bytes_eq path (path_of append)
    then some append
    else if bytes_eq path (path_of snapshot)
    then some snapshot
    else if bytes_eq path (path_of vote)
    then some vote
    else if bytes_eq path (path_of transfer_leader)
    then some transfer_leader
    else none

module _ (O : OpenRaft) where
  abbrev pub Groups : Type 0
  Groups = OrdMap O.Raft

  -- The message without the channel for the answer.
  pub record NodeMessage : Type 0 where
    pub group_id : ℕ
    pub path : Bytes
    pub payload : Bytes

  abbrev map_fatal : {A : Type 0} → Result O.Fatal A × O.Raft → Result O.RaftError A × O.Raft
  map_fatal (ok a, raft) = (ok a, raft)
  map_fatal (err e, raft) = (err (O.fatal e), raft)

  unfoldable pub handler :
      (m : Method) → O.Request m → O.Raft → Result O.RaftError (O.Response m) × O.Raft
  handler append req raft = O.append_entries req raft
  handler vote req raft = O.raft_vote req raft
  handler snapshot req raft = map_fatal (O.install_full_snapshot req raft)
  handler transfer_leader req raft = map_fatal (O.handle_transfer_leader req raft)

  abbrev pub answer_with :
      (m : Method) → Result O.RaftError (O.Response m) × O.Raft → Bytes × O.Raft
  answer_with m (res, raft) = ((O.response_json m).to_vec res, raft)

  -- A function of api.rs: `none` is the panic of `decode` on a text that is no request.
  unfoldable pub serve : Method → Bytes → O.Raft → Option (Bytes × O.Raft)
  serve m payload raft = elim ((O.request_json m).from_slice payload) [
    | none ↦ none
    | some req ↦ some (answer_with m (handler m req raft))
  ]

  unfoldable pub stopped_text : Bytes
  stopped_text = O.unit_json.to_vec (err (O.fatal O.stopped))

  abbrev pub serve_path : Option Method → Bytes → O.Raft → Option (Bytes × O.Raft)
  serve_path none payload raft = some (stopped_text, raft)
  serve_path (some m) payload raft = serve m payload raft

  abbrev pub put_back : ℕ → Groups → Option (Bytes × O.Raft) → Option (Bytes × Groups)
  put_back group groups none = none
  put_back group groups (some (res, raft)) = some (res, insert group raft groups)

  -- One round of the loop of `run`: the answer and the groups of the node.
  unfoldable pub run_one : NodeMessage → Groups → Option (Bytes × Groups)
  run_one msg groups = elim (lookup msg.group_id groups) [
    | none ↦ some (stopped_text, groups)
    | some raft ↦ put_back msg.group_id groups (serve_path (method_of msg.path) msg.payload raft)
  ]

  pub data Status : Type 0 where
    invalid_argument : Status

  abbrev pub as_answer : Option (Bytes × Groups) → Option (Result Status Bytes × Groups)
  as_answer none = none
  as_answer (some (res, groups)) = some (ok res, groups)

  -- The server's own `match` on the path, over the functions of api.rs.
  unfoldable pub call_api : Bytes → Bytes → O.Raft → Option (Bytes × O.Raft)
  call_api path payload raft =
      if bytes_eq path (codes "/raft/append")
      then serve append payload raft
      else if bytes_eq path (codes "/raft/snapshot")
      then serve snapshot payload raft
      else if bytes_eq path (codes "/raft/vote")
      then serve vote payload raft
      else if bytes_eq path (codes "/raft/transfer_leader")
      then serve transfer_leader payload raft
      else some (stopped_text, raft)

  unfoldable pub demux_raft_call : NodeMessage → Groups → Option (Result Status Bytes × Groups)
  demux_raft_call req groups = elim (lookup req.group_id groups) [
    | none ↦ some (ok stopped_text, groups)
    | some raft ↦
        if not (O.is_utf8 req.payload)
        then some (err invalid_argument, groups)
        else as_answer (put_back req.group_id groups (call_api req.path req.payload raft))
  ]
