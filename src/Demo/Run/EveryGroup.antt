-- ===== src/Demo/Run/EveryGroup.antt =====
-- The outer loop of `run_cluster`: the groups in turn, each on every node.
use bf_multiraft.Base.{
  ℕ, zero, suc, ◌≤◌, ◌≡◌, refl, ap, ◌⊎◌, sym, subst, ◌∙◌, false, none, some, arith, List, [], ◌∷◌,
  ◌++◌, inl, inr, map, All, contains,
}
use bf_multiraft.Facade.{MultiRaft, ClusterGlue, add}
use bf_multiraft.Facade.InitOnce.{Create}
use bf_multiraft.Facade.InitOnce.Reached.{AnyStarts}
use bf_multiraft.Demo.{range}
use bf_multiraft.Demo.Startup.{Chance}
use bf_multiraft.Demo.Run.{Process, Filled, and_groups, create_on_nodes, create_everywhere}
use bf_multiraft.Demo.Run.Traced.{
  Traces, nil-Traces, append-Traces, AnyStarts-left, AnyStarts-right,
}
use bf_multiraft.Demo.Run.EveryNode.{Fits, with_group, ids, Unlucky, OnEach, create_on_nodes-OnEach}

-- The groups on a node, one after the other.
abbrev pub with_all : List ℕ → MultiRaft → MultiRaft
with_all [] n = n
with_all (g ∷ gs) n = with_all gs (with_group g n)

abbrev pub AllStart : List ℕ → List Create → List ℕ → ℕ → Type 0
AllStart members cs ms g = All (λ id. AnyStarts g members id cs) ms

ids-with_group : (g : ℕ) (ns : List MultiRaft) → ids (map (with_group g) ns) ≡ ids ns
ids-with_group g [] = refl
ids-with_group g (n ∷ ns) = ap (λ rest. n.config.node_id ∷ rest) (ids-with_group g ns)

map-with_all :
    (g : ℕ) (gs : List ℕ) (ns : List MultiRaft)
    → map (with_all gs) (map (with_group g) ns) ≡ map (with_all (g ∷ gs)) ns
map-with_all g gs [] = refl
map-with_all g gs (n ∷ ns) = ap (λ rest. with_all gs (with_group g n) ∷ rest) (map-with_all g gs ns)

contains-add_other :
    (k g : ℕ) (set : List ℕ) → suc k ≤ g → contains set g ≡ false → contains (add k set) g ≡ false
unfolding contains
contains-add_other k g set lt h = ground arith

next-Fits :
    (members : List ℕ) (k : ℕ) (ns : List MultiRaft)
    → All (Fits members k) ns
    → All (Fits members (suc k)) (map (with_group k) ns)
next-Fits members k [] h = tt
next-Fits members k (n ∷ ns) ((net, role, member, fresh), hs) = (
  (net, role, member, λ g lt. contains-add_other k g n.groups lt (fresh g (omega arith))),
  next-Fits members k ns hs,
)

left-AllStart :
    (members : List ℕ) (cs ds : List Create) (g : ℕ) (ms : List ℕ)
    → AllStart members cs ms g
    → AllStart members (cs ++ ds) ms g
left-AllStart members cs ds g [] h = tt
left-AllStart members cs ds g (m ∷ ms) (h, hs) =
    (AnyStarts-left g members m cs ds h, left-AllStart members cs ds g ms hs)

right-AllStart :
    (members : List ℕ) (cs ds : List Create) (g : ℕ) (ms : List ℕ)
    → AllStart members ds ms g
    → AllStart members (cs ++ ds) ms g
right-AllStart members cs ds g [] h = tt
right-AllStart members cs ds g (m ∷ ms) (h, hs) =
    (AnyStarts-right g members m cs ds h, right-AllStart members cs ds g ms hs)

All-right :
    (members : List ℕ) (cs ds : List Create) (ms gs : List ℕ)
    → All (AllStart members ds ms) gs
    → All (AllStart members (cs ++ ds) ms) gs
All-right members cs ds ms [] h = tt
All-right members cs ds ms (g ∷ gs) (h, hs) =
    (right-AllStart members cs ds g ms h, All-right members cs ds ms gs hs)

module _ (members : List ℕ) (chance : ℕ → ℕ → Chance) where
  -- For some group a node meets an error of openraft.
  abbrev pub AnyUnlucky : List ℕ → List ℕ → Type 0
  AnyUnlucky ms [] = ⊥
  AnyUnlucky ms (g ∷ gs) = Unlucky (chance g) ms ⊎ AnyUnlucky ms gs

  -- Without an error each node has got each group, by a call that starts it.
  abbrev pub OnAll : List ℕ → List MultiRaft → ClusterGlue → Filled → Type 0
  OnAll gs ns glue (some e, p) =
      AnyUnlucky (ids ns) gs × ((cs : List Create) × Traces members glue p cs)
  OnAll gs ns glue (none, p) =
      (p.nodes ≡ map (with_all gs) ns)
      × ((cs : List Create) × Traces members glue p cs × All (AllStart members cs (ids ns)) gs)

  and_groups-OnAll :
      (g : ℕ) (gs : List ℕ) (ns : List MultiRaft) (glue : ClusterGlue) (p : Process) (rest : Filled)
      → OnEach members (chance g) g ns glue (none, p)
      → OnAll gs (map (with_group g) ns) p.glue rest
      → OnAll
          (g ∷ gs)
          ns
          glue
          (rest.0, record (rest.1) { initialized = p.initialized ++ rest.1.initialized })
  and_groups-OnAll g gs ns glue p (some e, q) (nodes, (cs, traces, starts))
        (unlucky, (ds, traces')) =
      (
        inr (subst (λ ms. AnyUnlucky ms gs) (ids-with_group g ns) unlucky),
        (cs ++ ds, append-Traces members glue p q cs ds traces traces'),
      )
  and_groups-OnAll g gs ns glue p (none, q) (nodes, (cs, traces, starts))
        (nodes', (ds, traces', starts')) =
      (
        nodes' ∙ map-with_all g gs ns,
        (
          cs ++ ds,
          append-Traces members glue p q cs ds traces traces',
          (
            left-AllStart members cs ds g (ids ns) starts,
            All-right members cs ds (ids ns) gs
                (subst (λ ms. All (AllStart members ds ms) gs) (ids-with_group g ns) starts'),
          ),
        ),
      )

  next-OnAll :
      (g : ℕ) (gs : List ℕ) (ns : List MultiRaft) (glue : ClusterGlue) (r : Filled)
      (next : List MultiRaft → ClusterGlue → Filled)
      → OnEach members (chance g) g ns glue r
      → ((glue' : ClusterGlue)
          → OnAll gs (map (with_group g) ns) glue' (next (map (with_group g) ns) glue'))
      → OnAll (g ∷ gs) ns glue (and_groups r next)
  next-OnAll g gs ns glue (some e, p) next (unlucky, traced) h = (inl unlucky, traced)
  next-OnAll g gs ns glue (none, p) next (nodes, traced) h =
      and_groups-OnAll g gs ns glue p (next p.nodes p.glue) (nodes, traced)
        (subst (λ ms. OnAll gs (map (with_group g) ns) p.glue (next ms p.glue)) (sym nodes)
          (h p.glue))

  pub create_everywhere-OnAll :
      (count k : ℕ) (ns : List MultiRaft) (glue : ClusterGlue)
      → All (Fits members k) ns
      → OnAll (range k count) ns glue (create_everywhere members chance (range k count) ns glue)
  unfolding create_everywhere
  create_everywhere-OnAll zero k ns glue fits = (
    same ns,
    ([], nil-Traces members (record { nodes = ns; glue = glue; initialized = [] }) refl, tt),
  )
    where
      same : (ms : List MultiRaft) → ms ≡ map (with_all []) ms
      same [] = refl
      same (m ∷ ms) = ap (λ rest. m ∷ rest) (same ms)
  create_everywhere-OnAll (suc count) k ns glue fits =
      next-OnAll k (range (suc k) count) ns glue (create_on_nodes members (chance k) k ns glue)
        (create_everywhere members chance (range (suc k) count))
        (create_on_nodes-OnEach members (chance k) k ns glue fits)
        (λ glue'.
          create_everywhere-OnAll count (suc k) (map (with_group k) ns) glue'
            (next-Fits members k ns fits))
