-- ===== src/Demo/Run/Nodes.antt =====
-- The nodes of a cluster when they have started, and when they have the groups.
use bf_multiraft.Base.{
  ℕ, zero, suc, ◌+◌, ◌≤◌, ◌<◌, ◌≡◌, refl, ap, ap₂, Bool, true, false, Option, some, arith, List, [],
  ◌∷◌, map, All, contains, not, if◌then◌else◌,
}
use bf_multiraft.Codec.{TotalCodec}
use bf_multiraft.Net.Router.{Router}
use bf_multiraft.Facade.{MultiRaft, in_process}
use bf_multiraft.Facade.Sets.{contains-add, kept-add}
use bf_multiraft.Facade.Runtime.{Ads}
use bf_multiraft.Facade.Start.{Seat, fresh_node, start_inner, start_cluster}
use bf_multiraft.Demo.{Args, range, cluster_config}
use bf_multiraft.Demo.Run.{Ended, not_started, Machine, seat_for}
use bf_multiraft.Demo.Run.Traced.{count}
use bf_multiraft.Demo.Run.EveryNode.{Fits, with_group, ids}
use bf_multiraft.Demo.Run.EveryGroup.{with_all}

pub nodes-start_cluster :
    (json : TotalCodec Ads) (seats : List Seat) (router : Router)
    → map (λ r. r.node) (start_cluster json seats router).0
      ≡ map (λ seat. fresh_node seat.config in_process) seats
unfolding start_cluster start_inner
nodes-start_cluster json [] router = refl
nodes-start_cluster json (seat ∷ seats) router =
    ap (λ rest. fresh_node seat.config in_process ∷ rest)
      (nodes-start_cluster json seats (start_inner json seat router).1)

pub All-range :
    (P : ℕ → Type 0) (first count : ℕ)
    → ((i : ℕ) → first ≤ i → i < first + count → P i)
    → All P (range first count)
All-range P first zero h = tt
All-range P first (suc count) h = (
  h first (omega arith) (omega arith),
  All-range P (suc first) count λ i le lt. h i (omega arith) (omega arith),
)

pub first_node-Fits :
    (m : Machine) (args : Args) (members ms : List ℕ)
    → All (λ id. contains members id ≡ true) ms
    → All
        (Fits members 0)
        (map (λ seat. fresh_node seat.config in_process) (map (seat_for m args) ms))
      × (ids (map (λ seat. fresh_node seat.config in_process) (map (seat_for m args) ms)) ≡ ms)
unfolding cluster_config contains
first_node-Fits m args members [] h = (tt, refl)
first_node-Fits m args members (id ∷ ms) (h, hs) =
    let (fits, e) = first_node-Fits m args members ms hs in
    (((refl, refl, h, λ g le. refl), fits), ap (λ rest. id ∷ rest) e)

-- The node has the groups.
abbrev pub HasAll : List ℕ → MultiRaft → Type 0
HasAll gs n = All (λ g. contains n.groups g ≡ true) gs

kept-with_all :
    (gs : List ℕ) (n : MultiRaft) (g : ℕ)
    → contains n.groups g ≡ true
    → contains (with_all gs n).groups g ≡ true
kept-with_all [] n g h = h
kept-with_all (x ∷ gs) n g h = kept-with_all gs (with_group x n) g (kept-add x n.groups g h)

with_all-HasAll : (gs : List ℕ) (n : MultiRaft) → HasAll gs (with_all gs n)
with_all-HasAll [] n = tt
with_all-HasAll (g ∷ gs) n = (
  kept-with_all gs (with_group g n) g (contains-add g n.groups),
  with_all-HasAll gs (with_group g n),
)

id-with_all : (gs : List ℕ) (n : MultiRaft) → (with_all gs n).config.node_id ≡ n.config.node_id
id-with_all [] n = refl
id-with_all (g ∷ gs) n = id-with_all gs (with_group g n)

pub map-HasAll :
    (gs : List ℕ) (ns : List MultiRaft)
    → (ids (map (with_all gs) ns) ≡ ids ns) × All (HasAll gs) (map (with_all gs) ns)
map-HasAll gs [] = (refl, tt)
map-HasAll gs (n ∷ ns) =
    let (e, h) = map-HasAll gs ns in
    (ap₂ (λ x xs. x ∷ xs) (id-with_all gs n) e, (with_all-HasAll gs n, h))

-- A run that starts only if the data directory is made.
pub made-Reaches :
    {S : Type 0} (P : Ended S → Type 0) (made : Bool) (r : Option (Ended S))
    → (made ≡ false → P not_started)
    → (made ≡ true → (ended : Ended S) × (r ≡ some ended) × P ended)
    → (ended : Ended S) × ((if not made then some not_started else r) ≡ some ended) × P ended
made-Reaches P true r missing h = h refl
made-Reaches P false r missing h = (not_started, refl, missing refl)
