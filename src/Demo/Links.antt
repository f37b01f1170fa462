-- ===== src/Demo/Links.antt =====
-- crates/multiraft-demo/src/main.rs and multiraft-net/src/multiraft.rs: the count of the links to
-- peers.
use bf_multiraft.Base.{
  ℕ, zero, suc, ◌≡◌, refl, ap, sym, ◌∙◌, Bool, true, false, List, [], ◌∷◌, arith, map, length,
  contains, ◌||◌,
}
use bf_multiraft.OrdMap.{OrdMap, contains_key}
use bf_multiraft.OrdMap.Order.{Above, Above-weaken, insert-Above}
use bf_multiraft.OrdMap.Keys.{contains_key-insert, length-keys}
use bf_multiraft.Codec.{TotalCodec}
use bf_multiraft.Fsm.Counter.{CounterFsm}
use bf_multiraft.Net.Router
use bf_multiraft.Net.Router.{Router, new_router, register_node, record_peer}
use bf_multiraft.Net.Channels
use bf_multiraft.Net.Channels.{GrpcRouter}
use bf_multiraft.Facade.{NetBackend, in_process, grpc}
use bf_multiraft.Facade.Requests.{RaftApi}
use bf_multiraft.Facade.Runtime.{Ads}
use bf_multiraft.Facade.Start.{Seat, with_groups, start_inner, start_cluster}
use bf_multiraft.Facade.Start.Registered.{seat_id}
use bf_multiraft.Demo.{Args, range, voters, cluster_config}
use bf_multiraft.Demo.Run.{Machine, seat_for}
use bf_multiraft.Demo.Nodes.{Node, DemoState}

-- The router of its backend: the shared one in process, or its own over gRPC.
unfoldable pub unique_peer_links : NetBackend → Router → GrpcRouter → ℕ
unique_peer_links in_process router peers = Router.unique_peer_links router
unique_peer_links grpc router peers = Channels.unique_peer_links peers

module _ (A : RaftApi CounterFsm) where
  abbrev links_of_first : List (Node A) → Router → GrpcRouter → ℕ
  links_of_first [] router peers = 0
  links_of_first (n ∷ ns) router peers = unique_peer_links n.net router peers

  -- `peers` is the router of the first node if that node runs over gRPC.
  unfoldable pub metrics_links : GrpcRouter → DemoState A → ℕ
  metrics_links peers s = links_of_first s.nodes s.router peers

known-start_cluster :
    (json : TotalCodec Ads) (seats : List Seat) (router : Router)
    → Above 0 router.metrics.peers
    → ((p : ℕ)
        → contains_key p (start_cluster json seats router).1.metrics.peers
          ≡ (contains (map seat_id seats) p || contains_key p router.metrics.peers))
      × Above 0 (start_cluster json seats router).1.metrics.peers
unfolding start_cluster start_inner with_groups register_node record_peer contains
known-start_cluster json [] router h = ((λ p. refl), h)
known-start_cluster json (seat ∷ seats) router h =
    let (known, above) =
      known-start_cluster json seats (start_inner json seat router).1
        (insert-Above 0 (seat_id seat) tt router.metrics.peers (omega arith) h) in
    (
      (λ p.
          let k = known p in
          ground (arith, contains_key-insert (seat_id seat) p tt router.metrics.peers, k)),
      above,
    )

-- The keys of a set.
abbrev numbered : List ℕ → OrdMap (Unit {0})
numbered = map (λ i. (i, tt))

numbered-Keys :
    (first count : ℕ)
    → Above first (numbered (range first count)) × (length (numbered (range first count)) ≡ count)
numbered-Keys first zero = (tt, refl)
numbered-Keys first (suc count) =
    let (above, size) = numbered-Keys (suc first) count in ((omega arith, above), ap suc size)

contains-numbered : (p : ℕ) (ks : List ℕ) → contains_key p (numbered ks) ≡ contains ks p
unfolding contains_key contains
contains-numbered p [] = refl
contains-numbered p (k ∷ ks) = ground (arith, contains-numbered p ks)

ids-seats :
    (m : Machine) (args : Args) (ids : List ℕ) → map seat_id (map (seat_for m args) ids) ≡ ids
unfolding cluster_config
ids-seats m args [] = refl
ids-seats m args (id ∷ ids) = ap (λ rest. id ∷ rest) (ids-seats m args ids)

-- `run_cluster`'s router, before any group is created.
abbrev pub cluster_router : TotalCodec Ads → Machine → Args → Router
cluster_router json m args = (start_cluster json (map (seat_for m args) (voters args)) new_router).1

links-cluster_router :
    (json : TotalCodec Ads) (m : Machine) (args : Args)
    → length (cluster_router json m args).metrics.peers ≡ args.nodes
unfolding contains_key
links-cluster_router json m args =
    let (known, above) =
      known-start_cluster json (map (seat_for m args) (voters args)) new_router tt in
    let (sorted, size) = numbered-Keys 1 args.nodes in
    let same = λ (p : ℕ).
      known p
      ∙ ap (λ ks. contains ks p || false) (ids-seats m args (voters args))
      ∙ or_false (contains (voters args) p)
      ∙ sym (contains-numbered p (voters args)) in
    let weak = Above-weaken {n = 1} {n' = 0} (numbered (voters args)) (omega arith) sorted in
    let le =
      length-keys 0 (cluster_router json m args).metrics.peers (numbered (voters args)) above weak
        (λ p h. sym (same p) ∙ h) in
    let ge =
      length-keys 0 (numbered (voters args)) (cluster_router json m args).metrics.peers weak above
        (λ p h. same p ∙ h) in
    omega (arith, le, ge, size)
  where
    or_false : (b : Bool) → (b || false) ≡ b
    or_false true = refl
    or_false false = refl

-- On the router of a cluster, whose nodes all run in process, `GET /metrics/links` answers with the
-- number of nodes, however many groups there are.
pub metrics_links-Cluster :
    (A : RaftApi CounterFsm) (json : TotalCodec Ads) (m : Machine) (args : Args)
    (peers : GrpcRouter) (s : DemoState A) (n : Node A) (ns : List (Node A))
    → s.nodes ≡ n ∷ ns
    → n.net ≡ in_process
    → s.router ≡ cluster_router json m args
    → metrics_links A peers s ≡ args.nodes
unfolding metrics_links unique_peer_links Router.unique_peer_links
metrics_links-Cluster A json m args peers s n ns e f g =
    rw (e, f, g) (links-cluster_router json m args)
