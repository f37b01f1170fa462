-- ===== src/Facade/InitOnce.antt =====
-- Nodes of one process initialize a group at most once.
pub mod Joins
pub mod Reached
use bf_multiraft.Base.{
  ℕ, ◌+◌, ◌≤◌, ◌≡◌, refl, sym, ap, subst, Bool, true, false, not, ◌&&◌, ◌||◌, List, [], ◌∷◌, arith,
  contains, ◌==◌, ==_iff, if◌then◌else◌,
}
use bf_multiraft.OrdMap.{OrdMap, insert}
use bf_multiraft.Fsm.{Result, ok, err}
use bf_multiraft.Core.{MultiRaftError, other}
use bf_multiraft.Facade.{
  ClusterGlue, InitOutcome, in_process, MultiRaft, Created, mark_ready, try_claim_init,
  create_group, join, refused, settled, initialize_with, with_spawned, is_standby, add, nodes_ready,
  all_in,
}

-- A call of `create_group` by any node of the process, with what its environment gives.
pub record Create : Type 0 where
  pub spawn : Result MultiRaftError (Unit {0})
  pub outcome : InitOutcome
  pub group : ℕ
  pub members : List ℕ
  pub node : MultiRaft

abbrev pub create : Create → ClusterGlue → Created
create c glue = create_group c.spawn c.outcome c.group c.members c.node glue

-- The number of calls of `initialize` for a group.
unfoldable pub initializations : ℕ → List Create → ClusterGlue → ℕ
initializations g [] glue = 0
initializations g (c ∷ cs) glue =
    let done = create c glue in
    (if (c.group == g) && done.calls_initialize then 1 else 0) + initializations g cs done.glue

unfoldable pub AllInProcess : List Create → Type 0
AllInProcess [] = Unit
AllInProcess (c ∷ cs) = (c.node.net ≡ in_process) × AllInProcess cs

-- A call claims the group that it initializes, which nobody had claimed, and no other.
abbrev pub Claims : ℕ → ClusterGlue → Created → Type 0
Claims group glue done =
    ((g : ℕ)
      → contains done.glue.claimed_init g
        ≡ (((group == g) && done.calls_initialize) || contains glue.claimed_init g))
    × (done.calls_initialize ≡ true → contains glue.claimed_init group ≡ false)

settled-Claims :
    (group : ℕ) (r : Result MultiRaftError (Unit {0})) (node : MultiRaft)
    (glue marked : ClusterGlue)
    → marked.claimed_init ≡ glue.claimed_init
    → Claims group glue (settled r node marked)
settled-Claims group r node glue marked h =
    ((λ g. let q = ap (λ c. contains c g) h in ground arith), (λ k. cc))

-- The two tests of `join`, on their values.
joined-Claims :
    (outcome : InitOutcome) (group : ℕ) (node : MultiRaft) (glue : ClusterGlue)
    (ready : OrdMap (List ℕ)) (b v : Bool)
    → contains glue.claimed_init group ≡ v
    → Claims group glue (
        if b
        then (if not v
            then initialize_with outcome node (record {
              ready = ready;
              claimed_init = if v then glue.claimed_init else group ∷ glue.claimed_init;
            })
            else settled (ok tt) node (record {
              ready = ready;
              claimed_init = if v then glue.claimed_init else group ∷ glue.claimed_init;
            }))
        else settled (ok tt) node (record { ready = ready; claimed_init = glue.claimed_init }))
unfolding contains
joined-Claims outcome group node glue ready false v h =
    settled-Claims group (ok tt) node glue
      (record { ready = ready; claimed_init = glue.claimed_init }) refl
joined-Claims outcome group node glue ready true true h =
    settled-Claims group (ok tt) node glue
      (record { ready = ready; claimed_init = glue.claimed_init }) refl
joined-Claims outcome group node glue ready true false h = ((λ g. ground arith), (λ k. h))

join-Claims :
    (outcome : InitOutcome) (group : ℕ) (members : List ℕ) (node : MultiRaft) (glue : ClusterGlue)
    → Claims group glue (join outcome group members node in_process glue)
unfolding join try_claim_init mark_ready
join-Claims outcome group members node glue =
    joined-Claims outcome group node glue
      (insert group (add node.config.node_id (nodes_ready group glue)) glue.ready)
      (all_in members (add node.config.node_id (nodes_ready group glue)))
      (contains glue.claimed_init group) refl

chosen-Claims :
    (r c : Bool) (spawn : Result MultiRaftError (Unit {0})) (group : ℕ) (node : MultiRaft)
    (glue : ClusterGlue) (next : Created)
    → Claims group glue next
    → Claims group glue (
        if r
        then settled (err other) node glue
        else if c
        then next
        else with_spawned spawn node glue next)
chosen-Claims true c spawn group node glue next h =
    settled-Claims group (err other) node glue glue refl
chosen-Claims false true spawn group node glue next h = h
chosen-Claims false false (ok u) group node glue next h = h
chosen-Claims false false (err e) group node glue next h =
    settled-Claims group (err e) node glue glue refl

next-Claims :
    (b : Bool) (group : ℕ) (node : MultiRaft) (glue : ClusterGlue) (next : Created)
    → Claims group glue next
    → Claims group glue (if b then settled (ok tt) node glue else next)
next-Claims true group node glue next h = settled-Claims group (ok tt) node glue glue refl
next-Claims false group node glue next h = h

pub create-Claims :
    (c : Create) (glue : ClusterGlue)
    → c.node.net ≡ in_process
    → Claims c.group glue (create c glue)
unfolding create_group
create-Claims c glue h =
    let node : MultiRaft = record (c.node) { groups = add c.group c.node.groups } in
    chosen-Claims (refused c.node c.members) (contains c.node.groups c.group) c.spawn c.group c.node
      glue _
      (next-Claims (is_standby c.node.config.role) c.group node glue _ (
        subst (λ n. Claims c.group glue (join c.outcome c.group c.members node n glue)) (sym h)
          (join-Claims c.outcome c.group c.members node glue)))

counted :
    (same calls before after : Bool) (n : ℕ)
    → n ≤ (if after then 0 else 1)
    → after ≡ ((same && calls) || before)
    → (same ≡ true → calls ≡ true → before ≡ false)
    → (if same && calls then 1 else 0) + n ≤ (if before then 0 else 1)
counted true true before after n h q f = let b = f refl refl in ground arith
counted true false before after n h q f = ground arith
counted false calls before after n h q f = ground arith

-- However the nodes of a process create groups, whatever openraft and the spawning of groups give
-- them, `initialize` is called at most once for each group, and not at all for one that was
-- claimed.
pub initializations-once :
    (g : ℕ) (cs : List Create) (glue : ClusterGlue)
    → AllInProcess cs
    → initializations g cs glue ≤ (if contains glue.claimed_init g then 0 else 1)
unfolding initializations AllInProcess
initializations-once g [] glue h = ground arith
initializations-once g (c ∷ cs) glue h =
    let (claims, fresh) = create-Claims c glue h.0 in
    let q = claims g in
    let rest = initializations-once g cs (create c glue).glue h.1 in
    counted (c.group == g) (create c glue).calls_initialize (contains glue.claimed_init g)
      (contains (create c glue).glue.claimed_init g) (initializations g cs (create c glue).glue)
      rest q
      (λ p r. subst (λ x. contains glue.claimed_init x ≡ false) ((==_iff c.group g).0 p) (fresh r))
