-- ===== src/Facade/Start/Fabric.antt =====
-- crates/multiraft-net/src/multiraft.rs: the fabric of a process, on which a node can start again.
use bf_multiraft.Base.{
  ℕ, ◌≡◌, refl, sym, subst, ◌∙◌, true, false, Bool-cases, inl, inr, some, List, [], arith, contains,
  ◌==◌, ==_refl,
}
use bf_multiraft.OrdMap.{lookup, lookup-insert, lookup-remove, contains_key, remove}
use bf_multiraft.OrdMap.Order.{Above}
use bf_multiraft.OrdMap.Keys.{length-insert}
use bf_multiraft.Codec.{TotalCodec}
use bf_multiraft.Fsm.{Result, ok, err}
use bf_multiraft.Core.{MultiRaftError}
use bf_multiraft.Net.Router.{
  Router, new_router, register_node, unregister_node, record_peer, unique_peer_links,
}
use bf_multiraft.Facade.{ClusterGlue, InitOutcome, in_process, create_group}
use bf_multiraft.Facade.InitOnce.{Create, create, create-Claims}
use bf_multiraft.Facade.Requests.{RaftApi, Groups, shutdown_all, shutdown, cleared}
use bf_multiraft.Facade.Runtime.{Ads}
use bf_multiraft.Facade.Start.{Seat, Running, fresh_node, with_groups, start_inner}

pub record SharedFabric : Type 0 where
  pub router : Router
  pub glue : ClusterGlue

abbrev pub new : SharedFabric
new = record { router = new_router; glue = record { ready = []; claimed_init = [] } }

module _ (json : TotalCodec Ads) where
  unfoldable pub start_node : Seat → SharedFabric → Running × SharedFabric
  start_node seat f =
      let (n, router) = start_inner json seat f.router in (n, record f { router = router })

  -- A node alone, on a fabric of its own.
  unfoldable pub start : Seat → Running × SharedFabric
  start seat = start_node seat new

-- What a shutdown that succeeds leaves of the router.
left_by_shutdown :
    {S : Type 0} (A : RaftApi S) (id : ℕ) (router : Router)
    (r : Result MultiRaftError (Unit {0}) × Groups A)
    → (cleared A in_process id router r).0 ≡ ok tt
    → (cleared A in_process id router r).2 ≡ (unregister_node id router).1
left_by_shutdown A id router (ok u, groups) h = refl
left_by_shutdown A id router (err e, groups) h = cc

abbrev peers_of : Router → List (ℕ × Unit {0})
peers_of router = router.metrics.peers

-- The node is back: it alone has another channel, no link is counted again, and no group is
-- initialized again.
abbrev pub Rejoins : Seat → SharedFabric → Running × SharedFabric → Type 0
Rejoins seat f (n, f') =
    (lookup seat.config.node_id f'.router.nodes ≡ some seat.tx)
    × ((id : ℕ)
        → (id == seat.config.node_id) ≡ false
        → lookup id f'.router.nodes ≡ lookup id f.router.nodes)
    × (unique_peer_links f'.router ≡ unique_peer_links f.router)
    × ((group : ℕ) (members : List ℕ) (spawn : Result MultiRaftError (Unit {0}))
          (outcome : InitOutcome)
        → contains f.glue.claimed_init group ≡ true
        → (create_group spawn outcome group members n.node f'.glue).calls_initialize ≡ false)

never_initialized :
    (c : Create) (glue : ClusterGlue)
    → c.node.net ≡ in_process
    → contains glue.claimed_init c.group ≡ true
    → (create c glue).calls_initialize ≡ false
never_initialized c glue net claimed =
    let (claims, fresh) = create-Claims c glue net in
    elim (Bool-cases (create c glue).calls_initialize) [ inr e ↦ e | inl e ↦ let f = fresh e in cc ]

restarted-Rejoins :
    (json : TotalCodec Ads) (seat : Seat) (f : SharedFabric)
    → contains_key seat.config.node_id f.router.metrics.peers ≡ true
    → Above 0 f.router.metrics.peers
    → Rejoins seat f (
        start_node json seat
          (record f { router = (unregister_node seat.config.node_id f.router).1 }))
unfolding start_node start_inner with_groups register_node unregister_node record_peer
    unique_peer_links
restarted-Rejoins json seat f known sorted =
    let id = seat.config.node_id in
    (
      lookup-insert id id seat.tx (remove id f.router.nodes) ∙ rw (==_refl id) refl,
      (λ j other. ground (
        arith,
        lookup-insert id j seat.tx (remove id f.router.nodes),
        lookup-remove id j f.router.nodes,
      )),
      length-insert id tt 0 f.router.metrics.peers sorted known,
      λ group members spawn outcome claimed.
          never_initialized
            (record {
              spawn = spawn;
              outcome = outcome;
              group = group;
              members = members;
              node = fresh_node seat.config in_process;
            })
            f.glue refl claimed,
    )

-- If a node of a process is shut down without an error and starts again on the fabric, then it is
-- reachable by its new channel, all others by those that they had, the number of links is what it
-- was, and no group that had been claimed for its initialization is initialized by the node when it
-- creates the group again.
pub start_node-Rejoins :
    {S : Type 0} (A : RaftApi S) (json : TotalCodec Ads) (seat : Seat) (f : SharedFabric)
    (groups : Groups A)
    → contains_key seat.config.node_id f.router.metrics.peers ≡ true
    → Above 0 f.router.metrics.peers
    → let down = shutdown A in_process seat.config.node_id groups f.router in
      down.0 ≡ ok tt → Rejoins seat f (start_node json seat (record f { router = down.2 }))
unfolding shutdown
start_node-Rejoins A json seat f groups known sorted h =
    subst (λ router. Rejoins seat f (start_node json seat (record f { router = router })))
      (sym (left_by_shutdown A seat.config.node_id f.router (shutdown_all A groups) h))
      (restarted-Rejoins json seat f known sorted)
