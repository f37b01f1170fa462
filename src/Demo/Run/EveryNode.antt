-- ===== src/Demo/Run/EveryNode.antt =====
-- The inner loop of `run_cluster`: a group on each node in turn.
use bf_multiraft.Base.{
  ℕ, ◌≤◌, ◌≡◌, refl, ap₂, ◌⊎◌, Bool, true, false, none, some, arith, List, [], ◌∷◌, inl, inr, map,
  All, contains, not, ◌&&◌, if◌then◌else◌,
}
use bf_multiraft.Fsm.{Result, ok, err}
use bf_multiraft.Core.{MultiRaftError}
use bf_multiraft.Facade.{
  MultiRaft, ClusterGlue, in_process, Created, create_group, refused, add, is_standby, is_empty,
  with_spawned,
}
use bf_multiraft.Facade.InitOnce.{Create, create}
use bf_multiraft.Facade.InitOnce.Reached.{AnyStarts}
use bf_multiraft.Demo.Startup.{Chance}
use bf_multiraft.Demo.Startup.Retries.{Lucky, Follows, next-Follows, join-Follows}
use bf_multiraft.Demo.Run.{Filled, create_on_nodes, or_stop}
use bf_multiraft.Demo.Run.Traced.{Traces, nil-Traces, cons-Traces, stop-Traces}

-- A voter in process that is a member and has no group from `k` on.
abbrev pub Fits : List ℕ → ℕ → MultiRaft → Type 0
Fits members k n =
    (n.net ≡ in_process)
    × (is_standby n.config.role ≡ false)
    × (contains members n.config.node_id ≡ true)
    × ((g : ℕ) → k ≤ g → contains n.groups g ≡ false)

abbrev pub with_group : ℕ → MultiRaft → MultiRaft
with_group gid n = record n { groups = add gid n.groups }

checked-refused :
    (members : List ℕ) (standby : Bool) (id : ℕ)
    → standby ≡ false
    → contains members id ≡ true
    → (if is_empty members then true else not standby && not (contains members id)) ≡ false
unfolding contains
checked-refused [] standby id s h = cc
checked-refused (m ∷ ms) standby id s h = rw h (ground arith)

Fits-refused :
    (members : List ℕ) (k : ℕ) (n : MultiRaft) → Fits members k n → refused n members ≡ false
unfolding refused
Fits-refused members k n (net, role, member, fresh) =
    checked-refused members (is_standby n.config.role) n.config.node_id role member

-- What the creation of a new group on a node comes to.
abbrev Adds : ℕ → Chance → MultiRaft → Created → Type 0
Adds gid chance n c =
    (c.result ≡ ok tt → (c.node ≡ with_group gid n) × (chance.0 ≡ ok tt))
    × (Lucky chance → c.result ≡ ok tt)

spawned-Adds :
    (gid : ℕ) (chance : Chance) (n : MultiRaft) (glue : ClusterGlue) (next : Created) (has : Bool)
    → has ≡ false
    → Follows chance.1 (with_group gid n) next
    → Adds gid chance n (if has then next else with_spawned chance.0 n glue next)
spawned-Adds gid chance n glue next true e h = cc
spawned-Adds gid (err x, outcome) n glue next false e h = ((λ r. cc), λ lucky. lucky.0)
spawned-Adds gid (ok u, outcome) n glue next false e (same, f) =
    ((λ r. (same, refl)), λ lucky. f lucky.1)

create_group-Adds :
    (gid : ℕ) (chance : Chance) (members : List ℕ) (n : MultiRaft) (glue : ClusterGlue)
    → Fits members gid n
    → Adds gid chance n (create_group chance.0 chance.1 gid members n glue)
unfolding create_group
create_group-Adds gid chance members n glue fits =
    let fresh = fits.3 gid (omega arith) in
    rw (Fits-refused members gid n fits) (
      spawned-Adds gid chance n glue _ (contains n.groups gid) fresh (
        next-Follows (is_standby n.config.role) chance.1 _ glue _
          (join-Follows chance.1 gid members (with_group gid n) n.net glue)))

abbrev pub ids : List MultiRaft → List ℕ
ids = map (λ n. n.config.node_id)

-- Some node meets an error of openraft.
abbrev pub Unlucky : (ℕ → Chance) → List ℕ → Type 0
Unlucky chance [] = ⊥
Unlucky chance (id ∷ ids) = (Lucky (chance id) → ⊥) ⊎ Unlucky chance ids

module _ (members : List ℕ) (chance : ℕ → Chance) (gid : ℕ) where
  abbrev call_on : MultiRaft → Create
  call_on n = record {
    spawn = (chance n.config.node_id).0;
    outcome = (chance n.config.node_id).1;
    group = gid;
    members = members;
    node = n;
  }

  -- Without an error each node has got the group, by a call that starts it.
  abbrev pub OnEach : List MultiRaft → ClusterGlue → Filled → Type 0
  OnEach ns glue (some e, p) =
      Unlucky chance (ids ns) × ((cs : List Create) × Traces members glue p cs)
  OnEach ns glue (none, p) =
      (p.nodes ≡ map (with_group gid) ns)
      × ((cs : List Create) × Traces members glue p cs
          × All (λ id. AnyStarts gid members id cs) (ids ns))

  -- Each node still starts the group when a call is put in front.
  still :
      (ms : List ℕ) (c : Create) (cs : List Create)
      → All (λ id. AnyStarts gid members id cs) ms
      → All (λ id. AnyStarts gid members id (c ∷ cs)) ms
  still [] c cs h = tt
  still (m ∷ ms) c cs (h, hs) = (inr h, still ms c cs hs)

  or_stop-OnEach :
      (n : MultiRaft) (ns : List MultiRaft) (glue : ClusterGlue)
      (r : Result MultiRaftError (Unit {0})) (rest : Filled)
      → let c = create (call_on n) glue in
        c.result ≡ r
        → Fits members gid n
        → OnEach ns c.glue rest
        → OnEach (n ∷ ns) glue (or_stop gid c ns r rest)
  or_stop-OnEach n ns glue (err x) rest e fits h =
      let (adds, lucky) = create_group-Adds gid (chance n.config.node_id) members n glue fits in
      (
        inl (λ l. let same = lucky l in cc),
        (
          call_on n ∷ [],
          stop-Traces members (call_on n) glue
              (or_stop gid (create (call_on n) glue) ns (err x) rest).1 (fits.0, refl) refl refl,
        ),
      )
  or_stop-OnEach n ns glue (ok u) (some x, p) e fits (unlucky, (cs, traces)) = (
    inr unlucky,
    (call_on n ∷ cs, cons-Traces members (call_on n) glue p cs (fits.0, refl) traces),
  )
  or_stop-OnEach n ns glue (ok u) (none, p) e fits (nodes, (cs, traces, starts)) =
      let (adds, lucky) = create_group-Adds gid (chance n.config.node_id) members n glue fits in
      let (added, spawned) = adds e in
      (
        ap₂ (λ x xs. x ∷ xs) added nodes,
        (
          call_on n ∷ cs,
          cons-Traces members (call_on n) glue p cs (fits.0, refl) traces,
          (
            inl (refl, refl, (Fits-refused members gid n fits, fits.1, spawned)),
            still (ids ns) (call_on n) cs starts,
          ),
        ),
      )

  pub create_on_nodes-OnEach :
      (ns : List MultiRaft) (glue : ClusterGlue)
      → All (Fits members gid) ns
      → OnEach ns glue (create_on_nodes members chance gid ns glue)
  unfolding create_on_nodes
  create_on_nodes-OnEach [] glue fits = (
    refl,
    ([], nil-Traces members (record { nodes = []; glue = glue; initialized = [] }) refl, tt),
  )
  create_on_nodes-OnEach (n ∷ ns) glue (f, fs) =
      or_stop-OnEach n ns glue (create (call_on n) glue).result _ refl f
        (create_on_nodes-OnEach ns (create (call_on n) glue).glue fs)
