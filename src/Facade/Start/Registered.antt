-- ===== src/Facade/Start/Registered.antt =====
-- Which nodes are reachable once a cluster has started.
use bf_multiraft.Base.{ℕ, ◌≡◌, refl, ap, ◌∙◌, Option, some, List, [], ◌∷◌, map, ◌==◌, if◌then◌else◌}
use bf_multiraft.OrdMap.{lookup, lookup-insert}
use bf_multiraft.Codec.{TotalCodec}
use bf_multiraft.Net.Router.{Router, register_node}
use bf_multiraft.Facade.Runtime.{Ads}
use bf_multiraft.Facade.Start.{Seat, with_groups, start_inner, start_cluster}

abbrev pub seat_id : Seat → ℕ
seat_id seat = seat.config.node_id

-- The channel of the last seat of a node, or the one that the node had.
abbrev pub last_tx : List Seat → ℕ → Option ℕ → Option ℕ
last_tx [] id before = before
last_tx (seat ∷ seats) id before =
    last_tx seats id (if seat_id seat == id then some seat.tx else before)

-- After the start of a cluster each node is reachable by its own channel, and any other node of the
-- router as before; the nodes that run are those of the seats, in their order.
pub start_cluster-reachable :
    (json : TotalCodec Ads) (seats : List Seat) (router : Router)
    → (map (λ n. n.node.config.node_id) (start_cluster json seats router).0 ≡ map seat_id seats)
      × ((id : ℕ)
          → lookup id (start_cluster json seats router).1.nodes
            ≡ last_tx seats id (lookup id router.nodes))
unfolding start_cluster start_inner with_groups register_node
start_cluster-reachable json [] router = (refl, λ id. refl)
start_cluster-reachable json (seat ∷ seats) router =
    let (ids, reach) = start_cluster-reachable json seats (start_inner json seat router).1 in
    (
      ap (λ rest. seat_id seat ∷ rest) ids,
      λ id. reach id ∙ ap (last_tx seats id) (lookup-insert (seat_id seat) id seat.tx router.nodes),
    )
