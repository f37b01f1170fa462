-- ===== src/Facade/InitOnce/Reached.antt =====
-- A group is initialized once all of its members in one process have created it.
use bf_multiraft.Base.{
  ℕ, ◌+◌, ◌≡◌, refl, sym, ap, subst, ◌∙◌, Bool, true, false, Bool-cases, inl, inr, ◌⊎◌, ◌&&◌, ◌||◌,
  List, [], ◌∷◌, arith, All, contains, ◌==◌, ==_iff, ==_refl, if◌then◌else◌,
}
use bf_multiraft.OrdMap.{lookup}
use bf_multiraft.Facade.{ClusterGlue, in_process, add, nodes_ready, all_in}
use bf_multiraft.Facade.Sets.{contains-add, kept-add, all_in-All}
use bf_multiraft.Facade.InitOnce.{Create, create, initializations, create-Claims}
use bf_multiraft.Facade.InitOnce.Joins.{Joined, Starts, create-Moves}

-- The glue after some calls.
abbrev pub after : List Create → ClusterGlue → ClusterGlue
after [] glue = glue
after (c ∷ cs) glue = after cs (create c glue).glue

module _ (g : ℕ) (members : List ℕ) where
  -- The calls of one process, those for the group with its members.
  abbrev pub Valid : Create → Type 0
  Valid c = (c.node.net ≡ in_process) × (c.group ≡ g → c.members ≡ members)

  abbrev pub StartsOn : ℕ → Create → Type 0
  StartsOn m c = (c.group ≡ g) × (c.node.config.node_id ≡ m) × Starts c

  abbrev pub AnyStarts : ℕ → List Create → Type 0
  AnyStarts m [] = ⊥
  AnyStarts m (c ∷ cs) = StartsOn m c ⊎ AnyStarts m cs

  abbrev IsReady : ClusterGlue → ℕ → Type 0
  IsReady glue m = contains (nodes_ready g glue) m ≡ true

  -- Once all members are ready the group is claimed.
  abbrev Inv : ClusterGlue → Type 0
  Inv glue = all_in members (nodes_ready g glue) ≡ true → contains glue.claimed_init g ≡ true

  -- What a call leaves: the members that were ready, and the invariant.
  abbrev Grows : ClusterGlue → ClusterGlue → Type 0
  Grows glue left = ((m : ℕ) → IsReady glue m → IsReady left m) × (Inv glue → Inv left)

  same-Grows : (glue left : ClusterGlue) → left ≡ glue → Grows glue left
  same-Grows glue left e = subst (Grows glue) (sym e) ((λ m h. h), (λ h. h))

  own-Grows :
      (id : ℕ) (glue left : ClusterGlue)
      → Joined g members id glue left
      → Grows glue left × IsReady left id
  own-Grows id glue left (ready, claimed) = (
    (
      λ m h. subst (λ set. contains set m ≡ true) (sym set) (kept-add id (nodes_ready g glue) m h),
      λ h all. claimed (ap (all_in members) (sym set) ∙ all),
    ),
    subst (λ set. contains set id ≡ true) (sym set) (contains-add id (nodes_ready g glue)),
  )
    where
      set : nodes_ready g left ≡ add id (nodes_ready g glue)
      set = ready g ∙ rw (==_refl g) refl

  other-Grows :
      (group : ℕ) (others : List ℕ) (id : ℕ) (glue left : ClusterGlue)
      → (group == g) ≡ false
      → Joined group others id glue left
      → (contains glue.claimed_init g ≡ true → contains left.claimed_init g ≡ true)
      → Grows glue left
  other-Grows group others id glue left e (ready, claimed) kept = (
    λ m h. subst (λ set. contains set m ≡ true) (sym set) h,
    λ h all. kept (h (ap (all_in members) (sym set) ∙ all)),
  )
    where
      set : nodes_ready g left ≡ nodes_ready g glue
      set = ready g ∙ rw e refl

  at_group :
      (c : Create) (glue left : ClusterGlue)
      → Valid c
      → c.group ≡ g
      → Joined c.group c.members c.node.config.node_id glue left
      → Joined g members c.node.config.node_id glue left
  at_group c glue left (net, same) e j =
      subst (λ x. Joined x members c.node.config.node_id glue left) e
        (subst (λ ms. Joined c.group ms c.node.config.node_id glue left) (same e) j)

  claimed-kept :
      (c : Create) (glue : ClusterGlue)
      → c.node.net ≡ in_process
      → contains glue.claimed_init g ≡ true
      → contains (create c glue).glue.claimed_init g ≡ true
  claimed-kept c glue net h =
      let (claims, fresh) = create-Claims c glue net in let q = claims g in ground arith

  create-Grows : (c : Create) (glue : ClusterGlue) → Valid c → Grows glue (create c glue).glue
  create-Grows c glue (net, same) =
      let left = (create c glue).glue in
      elim (create-Moves c glue net).0 [
        | inr e ↦ same-Grows glue left e
        | inl j ↦ elim (Bool-cases (c.group == g)) [
          | inl e ↦
              (own-Grows c.node.config.node_id glue left
                (at_group c glue left (net, same) ((==_iff c.group g).0 e) j)).0
          | inr e ↦
              other-Grows c.group c.members c.node.config.node_id glue left e j
                (claimed-kept c glue net)
        ]
      ]

  create-IsReady :
      (c : Create) (glue : ClusterGlue) (m : ℕ)
      → Valid c
      → StartsOn m c
      → IsReady (create c glue).glue m
  create-IsReady c glue m (net, same) (e, i, starts) =
      let left = (create c glue).glue in
      subst (IsReady left) i
        (own-Grows c.node.config.node_id glue left
          (at_group c glue left (net, same) e ((create-Moves c glue net).1 starts))).1

  after-Grows : (cs : List Create) (glue : ClusterGlue) → All Valid cs → Grows glue (after cs glue)
  after-Grows [] glue valid = ((λ m h. h), (λ h. h))
  after-Grows (c ∷ cs) glue (v, vs) =
      let (ready, inv) = create-Grows c glue v in
      let (ready', inv') = after-Grows cs (create c glue).glue vs in
      ((λ m h. ready' m (ready m h)), (λ h. inv' (inv h)))

  after-IsReady :
      (cs : List Create) (glue : ClusterGlue) (m : ℕ)
      → All Valid cs
      → AnyStarts m cs
      → IsReady (after cs glue) m
  after-IsReady [] glue m valid x = elim x [ ]
  after-IsReady (c ∷ cs) glue m (v, vs) (inl starts) =
      (after-Grows cs (create c glue).glue vs).0 m (create-IsReady c glue m v starts)
  after-IsReady (c ∷ cs) glue m (v, vs) (inr later) =
      after-IsReady cs (create c glue).glue m vs later

  abbrev one_if : Bool → ℕ
  one_if true = 1
  one_if false = 0

  counted_exactly :
      (same calls before next : Bool) (n last : ℕ)
      → n + one_if next ≡ last
      → next ≡ ((same && calls) || before)
      → (same ≡ true → calls ≡ true → before ≡ false)
      → (if same && calls then 1 else 0) + n + one_if before ≡ last
  counted_exactly true true before next n last h q f = let b = f refl refl in ground arith
  counted_exactly true false before next n last h q f = ground arith
  counted_exactly false calls before next n last h q f = ground arith

  -- Each call of `initialize` is a claim.
  initializations-claims :
      (cs : List Create) (glue : ClusterGlue)
      → All Valid cs
      → initializations g cs glue + one_if (contains glue.claimed_init g)
        ≡ one_if (contains (after cs glue).claimed_init g)
  unfolding initializations
  initializations-claims [] glue valid = omega arith
  initializations-claims (c ∷ cs) glue (v, vs) =
      let (claims, fresh) = create-Claims c glue v.0 in
      counted_exactly (c.group == g) (create c glue).calls_initialize (contains glue.claimed_init g)
        (contains (create c glue).glue.claimed_init g) (initializations g cs (create c glue).glue) _
        (initializations-claims cs (create c glue).glue vs) (claims g)
        (λ p r.
          subst (λ x. contains glue.claimed_init x ≡ false) ((==_iff c.group g).0 p) (fresh r))

abbrev pub no_glue : ClusterGlue
no_glue = record { ready = []; claimed_init = [] }

members-IsReady :
    (g : ℕ) (ms members : List ℕ) (cs : List Create)
    → All (Valid g members) cs
    → All (λ m. AnyStarts g members m cs) ms
    → All (IsReady g members (after cs no_glue)) ms
members-IsReady g [] members cs valid starts = tt
members-IsReady g (m ∷ ms) members cs valid (s, ss) =
    (after-IsReady g members cs no_glue m valid s, members-IsReady g ms members cs valid ss)

-- If the nodes of a process, none of which has created a group before, create it with the same
-- members, in any order and with any failures and retries between, and each member has at some time
-- started the group in a call that is not refused, then `initialize` is called exactly once for it.
pub initializations-reached :
    (g m : ℕ) (ms : List ℕ) (cs : List Create)
    → All (Valid g (m ∷ ms)) cs
    → All (λ k. AnyStarts g (m ∷ ms) k cs) (m ∷ ms)
    → initializations g cs no_glue ≡ 1
unfolding contains all_in lookup
initializations-reached g m ms cs valid starts =
    let all =
      all_in-All (m ∷ ms) (nodes_ready g (after cs no_glue))
        (members-IsReady g (m ∷ ms) (m ∷ ms) cs valid starts) in
    let claimed = (after-Grows g (m ∷ ms) cs no_glue valid).1 (λ h. cc) all in
    omega
      (arith, initializations-claims g (m ∷ ms) cs no_glue valid, ap (one_if g (m ∷ ms)) claimed)
