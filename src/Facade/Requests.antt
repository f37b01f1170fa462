-- ===== src/Facade/Requests.antt =====
-- crates/multiraft-net/src/multiraft.rs: the requests to the groups of a node, and its shutdown.
-- What openraft holds for a group, its handle and the state machine that it drives, is one value; a
-- call of the handle gives its result and the value that it leaves.
pub mod Shutdown
use bf_multiraft.Base.{
  ℕ, ◌≡◌, Bool, true, false, Option, none, some, List, [], ◌∷◌, Bytes, ◌==◌, if◌then◌else◌,
}
use bf_multiraft.OrdMap.{OrdMap, lookup, insert}
use bf_multiraft.Fsm.{Result, ok, err}
use bf_multiraft.Core.{
  MultiRaftError, not_leader, other, unknown_group, ProposeOk, SocketAddr, standby_snapshot_trigger,
}
use bf_multiraft.Facade.{NetBackend, in_process, grpc}
use bf_multiraft.Net.Router.{Router, unregister_node}

-- `State` is the state of the state machine, which a local read sees.
pub record RaftApi (State : Type 0) : Type 1 where
  pub Group : Type 0
  pub ApiError : Type 0
  -- `forward_to_leader`, with the leader if it is known.
  pub forward_to_leader : ApiError → Option (Option ℕ)
  pub client_write : Bytes → Group → Result ApiError ProposeOk × Group
  pub ensure_linearizable : Group → Result ApiError (Unit {0}) × Group
  pub add_learner : ℕ → Option SocketAddr → Group → Result ApiError (Unit {0}) × Group
  pub wait_for_recovery : Group → Result ApiError (Unit {0}) × Group
  pub shutdown : Group → Result ApiError (Unit {0}) × Group
  pub current_leader : Group → Option ℕ
  pub is_leader : Group → Bool
  pub fsm : Group → State

-- The address of a peer: the first that the configuration has for it.
unfoldable pub peer_addr : ℕ → List (ℕ × SocketAddr) → Option SocketAddr
peer_addr id [] = none
peer_addr id ((n, addr) ∷ peers) = if n == id then some addr else peer_addr id peers

-- The map of `membership_nodes`.
unfoldable pub membership_nodes :
    List (ℕ × SocketAddr) → List ℕ → OrdMap (Option SocketAddr) → OrdMap (Option SocketAddr)
membership_nodes peers [] nodes = nodes
membership_nodes peers (id ∷ members) nodes =
    membership_nodes peers members (insert id (peer_addr id peers) nodes)

module _ {S : Type 0} (A : RaftApi S) where
  abbrev pub Groups : Type 0
  Groups = OrdMap A.Group

  abbrev forwarded : Option (Option ℕ) → MultiRaftError
  forwarded none = other
  forwarded (some leader_id) = not_leader leader_id

  abbrev pub map_err : {B : Type 0} → Result A.ApiError B → Result MultiRaftError B
  map_err (ok b) = ok b
  map_err (err e) = err (forwarded (A.forward_to_leader e))

  -- The errors that are not told apart.
  abbrev pub as_other : {B : Type 0} → Result A.ApiError B → Result MultiRaftError B
  as_other (ok b) = ok b
  as_other (err e) = err other

  abbrev pub put_group :
      {B : Type 0}
      → ℕ
      → Groups
      → Result MultiRaftError B × A.Group
      → Result MultiRaftError B × Groups
  put_group group groups (r, app) = (r, insert group app groups)

  -- A request to a group that the node has; for any other it is `UnknownGroup`.
  abbrev pub on_group :
      {B : Type 0}
      → ℕ
      → Groups
      → (A.Group → Result MultiRaftError B × A.Group)
      → Result MultiRaftError B × Groups
  on_group group groups f = elim (lookup group groups) [
    | none ↦ (err (unknown_group group), groups)
    | some app ↦ put_group group groups (f app)
  ]

  unfoldable pub propose : ℕ → Bytes → Groups → Result MultiRaftError ProposeOk × Groups
  propose group bytes groups =
      on_group group groups λ app. let (r, app') = A.client_write bytes app in (map_err r, app')

  unfoldable pub trigger_standby_snapshot : ℕ → Groups → Result MultiRaftError ProposeOk × Groups
  trigger_standby_snapshot group groups = propose group standby_snapshot_trigger groups

  unfoldable pub add_standby :
      List (ℕ × SocketAddr) → ℕ → ℕ → Groups → Result MultiRaftError (Unit {0}) × Groups
  add_standby peers group standby_id groups = on_group group groups λ app.
      let (r, app') = A.add_learner standby_id (peer_addr standby_id peers) app in (map_err r, app')

  unfoldable pub wait_for_recovery : ℕ → Groups → Result MultiRaftError (Unit {0}) × Groups
  wait_for_recovery group groups =
      on_group group groups λ app. let (r, app') = A.wait_for_recovery app in (as_other r, app')

  unfoldable pub with_fsm : {R : Type 0} → ℕ → (S → R) → Groups → Option R
  with_fsm group f groups = elim (lookup group groups) [
    | none ↦ none
    | some app ↦ some (f (A.fsm app))
  ]

  -- The read of the local state machine, once leadership is confirmed.
  abbrev pub read_now :
      {R : Type 0}
      → (S → R)
      → Result A.ApiError (Unit {0}) × A.Group
      → Result MultiRaftError R × A.Group
  read_now f (ok _, app) = (ok (f (A.fsm app)), app)
  read_now f (err e, app) = (err (forwarded (A.forward_to_leader e)), app)

  unfoldable pub read_linearizable :
      {R : Type 0} → ℕ → (S → R) → Groups → Result MultiRaftError R × Groups
  read_linearizable group f groups =
      on_group group groups λ app. read_now f (A.ensure_linearizable app)

  unfoldable pub is_leader : ℕ → Groups → Bool
  is_leader group groups = elim (lookup group groups) [ none ↦ false | some app ↦ A.is_leader app ]

  unfoldable pub leader : ℕ → Groups → Option ℕ
  leader group groups = elim (lookup group groups) [ none ↦ none | some app ↦ A.current_leader app ]

  abbrev pub and_rest :
      ℕ
      → Groups
      → Result MultiRaftError (Unit {0}) × Groups
      → Result A.ApiError (Unit {0}) × A.Group
      → Result MultiRaftError (Unit {0}) × Groups
  and_rest g groups rest (ok _, app) = (rest.0, (g, app) ∷ rest.1)
  and_rest g groups rest (err e, app) = (err other, (g, app) ∷ groups)

  -- The groups are shut down one after the other, up to the first that fails.
  unfoldable pub shutdown_all : Groups → Result MultiRaftError (Unit {0}) × Groups
  shutdown_all [] = (ok tt, [])
  shutdown_all ((g, app) ∷ groups) =
      let rest = shutdown_all groups in and_rest g groups rest (A.shutdown app)

  abbrev leave : NetBackend → ℕ → Router → Router
  leave grpc node_id router = router
  leave in_process node_id router = (unregister_node node_id router).1

  abbrev pub cleared :
      NetBackend
      → ℕ
      → Router
      → Result MultiRaftError (Unit {0}) × Groups
      → Result MultiRaftError (Unit {0}) × Groups × Router
  cleared net node_id router (ok _, groups) = (ok tt, [], leave net node_id router)
  cleared net node_id router (err e, groups) = (err e, groups, router)

  unfoldable pub shutdown :
      NetBackend → ℕ → Groups → Router → Result MultiRaftError (Unit {0}) × Groups × Router
  shutdown net node_id groups router = cleared net node_id router (shutdown_all groups)
