-- ===== src/Net/Factories.antt =====
-- crates/multiraft-net/src/network.rs and grpc/router.rs: the factories that give openraft the
-- client of a group to a node, and the pause after a call that was not answered;
-- crates/multiraft-store/src/stub_network.rs: the network of a node with no peers. The adapter
-- behind a client, of openraft_multi, calls the router with the node and the group that it was made
-- for.
use bf_multiraft.Base.{ℕ, Option, some}
use bf_multiraft.Net.Dispatch.{append, vote, snapshot, transfer_leader, OpenRaft}
use bf_multiraft.Net.Router.{Router, Reply, unreachable}
use bf_multiraft.Net.Channels.{GrpcRouter}

-- What the adapter of a client is made from.
pub record Client (R : Type 0) : Type 0 where
  pub router : R
  pub target : ℕ
  pub group_id : ℕ

pub record NetworkFactory : Type 0 where
  pub router : Router
  pub group_id : ℕ

unfoldable pub new : Router → ℕ → NetworkFactory
new router group_id = record { router = router; group_id = group_id }

-- The client shares the router: no link is opened.
unfoldable pub new_client : ℕ → NetworkFactory → Client Router
new_client target f = record { router = f.router; target = target; group_id = f.group_id }

pub record GrpcNetworkFactory : Type 0 where
  pub router : GrpcRouter
  pub group_id : ℕ

unfoldable pub new_grpc : GrpcRouter → ℕ → GrpcNetworkFactory
new_grpc router group_id = record { router = router; group_id = group_id }

unfoldable pub new_grpc_client : ℕ → GrpcNetworkFactory → Client GrpcRouter
new_grpc_client target f = record { router = f.router; target = target; group_id = f.group_id }

-- The pause before attempt `n`, in milliseconds, of both routers.
unfoldable pub backoff : Option (ℕ → ℕ)
backoff = some (λ n. 500)

pub data StubNetwork : Type 0 where
  stub_network : StubNetwork

pub data StubNetworkFactory : Type 0 where
  stub_network_factory : StubNetworkFactory

-- Every client is alike.
unfoldable pub stub_client : ℕ → StubNetworkFactory → StubNetwork
stub_client target f = stub_network

module _ (O : OpenRaft) where
  -- The stub answers each call alike.
  unfoldable pub stub_append_entries : StubNetwork → O.Request append → Reply (O.Response append)
  stub_append_entries net rpc = unreachable

  unfoldable pub stub_vote : StubNetwork → O.Request vote → Reply (O.Response vote)
  stub_vote net rpc = unreachable

  unfoldable pub stub_full_snapshot : StubNetwork → O.Request snapshot → Reply (O.Response snapshot)
  stub_full_snapshot net rpc = unreachable

  unfoldable pub stub_transfer_leader :
      StubNetwork → O.Request transfer_leader → Reply (O.Response transfer_leader)
  stub_transfer_leader net req = unreachable
