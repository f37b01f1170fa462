-- ===== src/Facade/InitOnce/Joins.antt =====
-- What one call of `create_group` in process does to the glue.
use bf_multiraft.Base.{
  ℕ, ◌≡◌, refl, sym, subst, Bool, true, false, Bool-cases, inl, inr, ◌⊎◌, not, List, [], ◌∷◌,
  contains, ◌==◌, if◌then◌else◌, none, some,
}
use bf_multiraft.OrdMap.{OrdMap, insert, lookup, lookup-insert}
use bf_multiraft.Fsm.{Result, ok, err}
use bf_multiraft.Core.{MultiRaftError, other}
use bf_multiraft.Facade.{
  ClusterGlue, InitOutcome, in_process, MultiRaft, Created, mark_ready, try_claim_init,
  create_group, join, refused, settled, initialize_with, with_spawned, is_standby, add, nodes_ready,
  all_in,
}
use bf_multiraft.Facade.Sets.{contains-head}
use bf_multiraft.Facade.InitOnce.{Create, create}

abbrev ready_in : ℕ → OrdMap (List ℕ) → List ℕ
ready_in g ready = elim (lookup g ready) [ none ↦ [] | some nodes ↦ nodes ]

ready_in-insert :
    (group g : ℕ) (set : List ℕ) (ready : OrdMap (List ℕ))
    → ready_in g (insert group set ready) ≡ (if group == g then set else ready_in g ready)
ready_in-insert group g set ready = elim (Bool-cases (group == g)) [
  | inl e ↦ rw (lookup-insert group g set ready, ready_in) (rw e refl)
  | inr e ↦ rw (lookup-insert group g set ready, ready_in) (rw e refl)
]

-- The node is ready for its group, and a group all of whose members are ready is claimed.
abbrev pub Joined : ℕ → List ℕ → ℕ → ClusterGlue → ClusterGlue → Type 0
Joined group members id glue left =
    ((g : ℕ)
      → nodes_ready g left
        ≡ (if group == g then add id (nodes_ready group glue) else nodes_ready g glue))
    × (all_in members (add id (nodes_ready group glue)) ≡ true
        → contains left.claimed_init group ≡ true)

tested-Joined :
    (outcome : InitOutcome) (group : ℕ) (members : List ℕ) (id : ℕ) (node : MultiRaft)
    (glue : ClusterGlue) (b v : Bool)
    → all_in members (add id (nodes_ready group glue)) ≡ b
    → contains glue.claimed_init group ≡ v
    → let ready = insert group (add id (nodes_ready group glue)) glue.ready in
      Joined group members id glue
        (if b
          then (if not v
              then initialize_with outcome node (record {
                ready = ready;
                claimed_init = if v then glue.claimed_init else group ∷ glue.claimed_init;
              })
              else settled (ok tt) node (record {
                ready = ready;
                claimed_init = if v then glue.claimed_init else group ∷ glue.claimed_init;
              }))
          else settled
              (ok tt)
              node
              (record { ready = ready; claimed_init = glue.claimed_init })).glue
tested-Joined outcome group members id node glue false v e h =
    (λ g. ready_in-insert group g (add id (nodes_ready group glue)) glue.ready, λ all. cc)
tested-Joined outcome group members id node glue true true e h =
    (λ g. ready_in-insert group g (add id (nodes_ready group glue)) glue.ready, λ all. h)
tested-Joined outcome group members id node glue true false e h = (
  λ g. ready_in-insert group g (add id (nodes_ready group glue)) glue.ready,
  λ all. contains-head group glue.claimed_init,
)

join-Joined :
    (outcome : InitOutcome) (group : ℕ) (members : List ℕ) (node : MultiRaft) (glue : ClusterGlue)
    → Joined group members node.config.node_id glue
        (join outcome group members node in_process glue).glue
unfolding join try_claim_init mark_ready
join-Joined outcome group members node glue =
    tested-Joined outcome group members node.config.node_id node glue
      (all_in members (add node.config.node_id (nodes_ready group glue)))
      (contains glue.claimed_init group) refl refl

-- A call leaves the glue alone or joins; one by a voter that is not refused and starts the group
-- joins.
abbrev pub Moves : ℕ → List ℕ → ℕ → ClusterGlue → Created → Type 0
Moves group members id glue done = Joined group members id glue done.glue ⊎ (done.glue ≡ glue)

chosen-Moves :
    (r c b : Bool) (spawn : Result MultiRaftError (Unit {0})) (group : ℕ) (members : List ℕ)
    (id : ℕ) (node node' : MultiRaft) (glue : ClusterGlue) (next : Created)
    → Joined group members id glue next.glue
    → let done =
        if r
        then settled (err other) node glue
        else if c
        then (if b then settled (ok tt) node' glue else next)
        else with_spawned spawn node glue (if b then settled (ok tt) node' glue else next) in
      Moves group members id glue done
      × (r ≡ false → b ≡ false → spawn ≡ ok tt → Joined group members id glue done.glue)
chosen-Moves true c b spawn group members id node node' glue next h = (inr refl, λ p q s. cc)
chosen-Moves false true true spawn group members id node node' glue next h = (inr refl, λ p q s. cc)
chosen-Moves false true false spawn group members id node node' glue next h = (inl h, λ p q s. h)
chosen-Moves false false b (err e) group members id node node' glue next h = (inr refl, λ p q s. cc)
chosen-Moves false false true (ok u) group members id node node' glue next h =
    (inr refl, λ p q s. cc)
chosen-Moves false false false (ok u) group members id node node' glue next h = (inl h, λ p q s. h)

-- What a call needs to succeed before the initialization.
abbrev pub Starts : Create → Type 0
Starts c =
    (refused c.node c.members ≡ false) × (is_standby c.node.config.role ≡ false) × (c.spawn ≡ ok tt)

pub create-Moves :
    (c : Create) (glue : ClusterGlue)
    → c.node.net ≡ in_process
    → Moves c.group c.members c.node.config.node_id glue (create c glue)
      × (Starts c → Joined c.group c.members c.node.config.node_id glue (create c glue).glue)
unfolding create_group
create-Moves c glue h =
    let node : MultiRaft = record (c.node) { groups = add c.group c.node.groups } in
    let (moves, starts) =
      chosen-Moves (refused c.node c.members) (contains c.node.groups c.group)
        (is_standby c.node.config.role) c.spawn c.group c.members c.node.config.node_id c.node node
        glue _
        (subst
          (λ n.
            Joined c.group c.members c.node.config.node_id glue
              (join c.outcome c.group c.members node n glue).glue)
          (sym h) (join-Joined c.outcome c.group c.members node glue)) in
    (moves, λ (r, s, t). starts r s t)
