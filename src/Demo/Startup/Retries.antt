-- ===== src/Demo/Startup/Retries.antt =====
-- The retries of `run_node` succeed once an attempt meets no error.
use bf_multiraft.Base.{
  ℕ, zero, suc, ◌+◌, ◌≡◌, ◌≤◌, refl, ap, sym, subst, ◌∙◌, Bool, true, false, split_le, inl, inr,
  none, some, arith, List, [], ◌∷◌, All, contains, if◌then◌else◌,
}
use bf_multiraft.Fsm.{Result, ok, err}
use bf_multiraft.Core.{MultiRaftError}
use bf_multiraft.Facade.{
  MultiRaft, ClusterGlue, InitOutcome, NetBackend, in_process, grpc, Created, create_group, refused,
  try_initialize, join, add, is_standby, settled, initialize_with, with_spawned, mark_ready,
}
use bf_multiraft.Facade.Sets.{contains-add, kept-add}
use bf_multiraft.Demo.Startup.{
  Chance, Tried, or_fail, create_each, next_attempt, create_with_retries, create_groups,
}

-- Neither the start of a group nor its initialization fails.
abbrev pub Lucky : Chance → Type 0
Lucky (spawn, outcome) = (spawn ≡ ok tt) × (try_initialize outcome ≡ ok tt)

-- The node keeps its configuration and its groups.
abbrev Keeps : MultiRaft → MultiRaft → Type 0
Keeps node left =
    (left.config ≡ node.config)
    × ((g : ℕ) → contains node.groups g ≡ true → contains left.groups g ≡ true)

-- What follows a call that is not refused.
abbrev Creates : ℕ → Chance → MultiRaft → Created → Type 0
Creates gid chance node c =
    Keeps node c.node
    × ((c.result ≡ ok tt → contains c.node.groups gid ≡ true) × (Lucky chance → c.result ≡ ok tt))

-- The node stays, and nothing fails if the initialization does not.
abbrev pub Follows : InitOutcome → MultiRaft → Created → Type 0
Follows outcome node c = (c.node ≡ node) × (try_initialize outcome ≡ ok tt → c.result ≡ ok tt)

joined-Follows :
    (outcome : InitOutcome) (node : MultiRaft) (marked claimed : ClusterGlue) (all_ready won : Bool)
    → Follows outcome node (
        if all_ready
        then (if won then initialize_with outcome node claimed else settled (ok tt) node claimed)
        else settled (ok tt) node marked)
joined-Follows outcome node marked claimed true true = (refl, λ h. h)
joined-Follows outcome node marked claimed true false = (refl, λ h. refl)
joined-Follows outcome node marked claimed false won = (refl, λ h. refl)

pub join-Follows :
    (outcome : InitOutcome) (gid : ℕ) (members : List ℕ) (node : MultiRaft) (net : NetBackend)
    (glue : ClusterGlue)
    → Follows outcome node (join outcome gid members node net glue)
unfolding join
join-Follows outcome gid members node grpc glue = (refl, λ h. h)
join-Follows outcome gid members node in_process glue =
    joined-Follows outcome node _ _ (mark_ready gid node.config.node_id members glue).0 _

pub next-Follows :
    (learner : Bool) (outcome : InitOutcome) (node : MultiRaft) (glue : ClusterGlue) (c : Created)
    → Follows outcome node c
    → Follows outcome node (if learner then settled (ok tt) node glue else c)
next-Follows true outcome node glue c h = (refl, λ i. refl)
next-Follows false outcome node glue c h = h

added-Creates :
    (gid : ℕ) (chance : Chance) (node : MultiRaft) (c : Created)
    → Follows chance.1 (record node { groups = add gid node.groups }) c
    → Creates gid chance node c
added-Creates gid (spawn, outcome) node c (e, f) = (
  (
    ap (λ n. n.config) e,
    λ g k.
        subst (λ (n : MultiRaft). contains n.groups g ≡ true) (sym e)
          (kept-add gid node.groups g k),
  ),
  (
    λ r.
        subst (λ (n : MultiRaft). contains n.groups gid ≡ true) (sym e)
          (contains-add gid node.groups),
    λ lucky. f lucky.1,
  ),
)

spawned-Creates :
    (gid : ℕ) (chance : Chance) (node : MultiRaft) (glue : ClusterGlue) (next : Created)
    → Follows chance.1 (record node { groups = add gid node.groups }) next
    → (has : Bool)
    → Creates gid chance node (if has then next else with_spawned chance.0 node glue next)
spawned-Creates gid chance node glue next h true = added-Creates gid chance node next h
spawned-Creates gid (err x, outcome) node glue next h false =
    ((refl, λ g k. k), (λ r. cc, λ lucky. lucky.0))
spawned-Creates gid (ok u, outcome) node glue next h false =
    added-Creates gid (ok u, outcome) node next h

create_group-Creates :
    (gid : ℕ) (chance : Chance) (members : List ℕ) (node : MultiRaft) (glue : ClusterGlue)
    → refused node members ≡ false
    → Creates gid chance node (create_group chance.0 chance.1 gid members node glue)
unfolding create_group
create_group-Creates gid chance members node glue h = rw h (
    spawned-Creates gid chance node glue _
      (next-Follows (is_standby node.config.role) chance.1 _ glue _ (
        join-Follows chance.1 gid members (record node { groups = add gid node.groups }) node.net
          glue))
      (contains node.groups gid))

refused-Keeps :
    (node left : MultiRaft) (members : List ℕ)
    → left.config ≡ node.config
    → refused node members ≡ false
    → refused left members ≡ false
unfolding refused
refused-Keeps node left members e h = rw e h

Keeps-trans : (a b c : MultiRaft) → Keeps a b → Keeps b c → Keeps a c
Keeps-trans a b c (e, f) (g, h) = (g ∙ e, λ x k. h x (f x k))

abbrev pub AllLucky : (ℕ → Chance) → List ℕ → Type 0
AllLucky chance = All (λ gid. Lucky (chance gid))

abbrev pub AllThere : MultiRaft → List ℕ → Type 0
AllThere node = All (λ gid. contains node.groups gid ≡ true)

-- Without an error all groups are there; with one, something has failed.
abbrev Tries : (ℕ → Chance) → List ℕ → MultiRaft → Tried → Type 0
Tries chance gids node (none, left, glue) = Keeps node left × AllThere left gids
Tries chance gids node (some e, left, glue) = Keeps node left × (AllLucky chance gids → ⊥)

or_fail-Tries :
    (chance : ℕ → Chance) (gid : ℕ) (gids : List ℕ) (node : MultiRaft) (c : Created)
    (r : Result MultiRaftError (Unit {0})) (rest : Tried)
    → c.result ≡ r
    → Creates gid (chance gid) node c
    → Tries chance gids c.node rest
    → Tries chance (gid ∷ gids) node (or_fail gid r c.node c.glue rest)
or_fail-Tries chance gid gids node c (err x) rest e (keeps, (there, lucky)) h =
    (keeps, λ all. let same = lucky all.0 in cc)
or_fail-Tries chance gid gids node c (ok tt) (none, left, glue) e (keeps, (there, lucky))
      (kept, all) =
    (Keeps-trans node c.node left keeps kept, (kept.1 gid (there e), all))
or_fail-Tries chance gid gids node c (ok tt) (some x, left, glue) e (keeps, (there, lucky))
      (kept, fails) =
    (Keeps-trans node c.node left keeps kept, λ all. fails all.1)

create_each-Tries :
    (members : List ℕ) (chance : ℕ → Chance) (gids : List ℕ) (node : MultiRaft) (glue : ClusterGlue)
    → refused node members ≡ false
    → Tries chance gids node (create_each members chance gids node glue)
unfolding create_each
create_each-Tries members chance [] node glue h = ((refl, λ g k. k), tt)
create_each-Tries members chance (gid ∷ gids) node glue h =
    let c = create_group (chance gid).0 (chance gid).1 gid members node glue in
    let made = create_group-Creates gid (chance gid) members node glue h in
    or_fail-Tries chance gid gids node c c.result _ refl made (
      create_each-Tries members chance gids c.node c.glue
        (refused-Keeps node c.node members made.0.0 h))

-- What the attempts from `k` to `k + left` leave.
abbrev pub Retried : (ℕ → ℕ → Chance) → List ℕ → ℕ → ℕ → Tried → Type 0
Retried chance gids left k (none, node, glue) = AllThere node gids
Retried chance gids left k (some e, node, glue) =
    (j : ℕ) → k ≤ j → j ≤ k + left → AllLucky (chance j) gids → ⊥

next-Retried :
    (chance : ℕ → ℕ → Chance) (gids : List ℕ) (left k : ℕ) (node : MultiRaft) (t : Tried)
    (retry : MultiRaft → ClusterGlue → Tried)
    → Tries (chance k) gids node t
    → ((node' : MultiRaft) (glue : ClusterGlue)
        → Keeps node node'
        → Retried chance gids left (suc k) (retry node' glue))
    → Retried chance gids (suc left) k (next_attempt t retry)
next-Retried chance gids left k node (none, node', glue) retry (keeps, all) h = all
next-Retried chance gids left k node (some (g, e), node', glue) retry (keeps, fails) h =
    earlier (retry node' glue) (h node' glue keeps)
  where
    earlier : (t : Tried) → Retried chance gids left (suc k) t → Retried chance gids (suc left) k t
    earlier (none, n, gl) all = all
    earlier (some x, n, gl) later = λ j le ge lucky. elim (split_le k j le) [
      | inl q ↦ fails (subst (λ i. AllLucky (chance i) gids) (sym q) lucky)
      | inr le' ↦ later j le' (omega arith) lucky
    ]

retries-Retried :
    (members : List ℕ) (chance : ℕ → ℕ → Chance) (gids : List ℕ) (left k : ℕ) (node : MultiRaft)
    (glue : ClusterGlue)
    → refused node members ≡ false
    → Retried chance gids left k (create_with_retries members chance gids left k node glue)
unfolding create_with_retries
retries-Retried members chance gids zero k node glue h =
    last (create_each members (chance k) gids node glue)
      (create_each-Tries members (chance k) gids node glue h)
  where
    last : (t : Tried) → Tries (chance k) gids node t → Retried chance gids 0 k t
    last (none, n, gl) (keeps, all) = all
    last (some x, n, gl) (keeps, fails) = λ j le ge lucky.
        let q : k ≡ j = omega arith in fails (subst (λ i. AllLucky (chance i) gids) (sym q) lucky)
retries-Retried members chance gids (suc left) k node glue h =
    next-Retried chance gids left k node (create_each members (chance k) gids node glue) _
      (create_each-Tries members (chance k) gids node glue h)
      (λ node' glue' keeps.
        retries-Retried members chance gids left (suc k) node' glue'
          (refused-Keeps node node' members keeps.0 h))

-- On a node that is not refused for its arguments the retries of `run_node` either leave all groups
-- on the node, or in none of the attempts 1 to 20 would the start and the initialization of every
-- group have succeeded.
pub create_groups-Retried :
    (members : List ℕ) (chance : ℕ → ℕ → Chance) (gids : List ℕ) (node : MultiRaft)
    (glue : ClusterGlue)
    → refused node members ≡ false
    → Retried chance gids 19 1 (create_groups members chance gids node glue)
unfolding create_groups
create_groups-Retried members chance gids node glue h =
    retries-Retried members chance gids 19 1 node glue h
