-- ===== src/Demo/Writes/Rounds.antt =====
-- What a round of the background loop proposes: to each group once, to the first node that leads
-- it.
use bf_multiraft.Base.{
  ℕ, ◌+◌, ◌≡◌, refl, sym, ap, ◌∙◌, subst, false, Bool-cases, inl, inr, Option, none, some, List, [],
  ◌∷◌, ◌++◌, Bytes, contains, ◌==◌, arith, if◌then◌else◌,
}
use bf_multiraft.OrdMap.{lookup, lookup-insert}
use bf_multiraft.Fsm.{Result, ok, err}
use bf_multiraft.Fsm.Counter.{CounterFsm, Serde, encode_add}
use bf_multiraft.Core.{MultiRaftError, not_leader, unknown_group, other, ProposeOk}
use bf_multiraft.Facade.Requests
use bf_multiraft.Facade.Requests.{RaftApi, Groups, map_err}
use bf_multiraft.Demo.{KeySource, next_idem}
use bf_multiraft.Demo.Nodes.{Node, leads, propose_on}
use bf_multiraft.Demo.Writes.{propose_first, propose_round}
use bf_multiraft.Demo.Writes.Entries.{
  Grows, Appending, node_entries, total_entries, propose_on-Grows, write_at,
}

Grows-plus :
    {B : Type 0} (a b k : ℕ) (r : Result MultiRaftError B) → Grows a b r → Grows (a + k) (b + k) r
Grows-plus a b k (ok x) h = omega (arith, h)
Grows-plus a b k (err (not_leader l)) h = omega (arith, h)
Grows-plus a b k (err (unknown_group g)) h = (omega (arith, h), omega (arith, h))
Grows-plus a b k (err other) h = (omega (arith, h), omega (arith, h))

-- How a count of entries has changed, by the answer to a proposal, if there was one.
abbrev pub Proposed : ℕ → ℕ → Option (Result MultiRaftError ProposeOk) → Type 0
Proposed before left none = left ≡ before
Proposed before left (some r) = Grows before left r

Proposed-plus :
    (a b k : ℕ) (o : Option (Result MultiRaftError ProposeOk))
    → Proposed a b o
    → Proposed (k + a) (k + b) o
Proposed-plus a b k none h = omega (arith, h)
Proposed-plus a b k (some (ok x)) h = omega (arith, h)
Proposed-plus a b k (some (err (not_leader l))) h = omega (arith, h)
Proposed-plus a b k (some (err (unknown_group g))) h = (omega (arith, h), omega (arith, h))
Proposed-plus a b k (some (err other)) h = (omega (arith, h), omega (arith, h))

module _ (A : RaftApi CounterFsm) (L : Appending A) (serde : Serde) where
  -- What the first node that leads the group answers to a proposal, if a node leads it.
  unfoldable pub first_answer : ℕ → Bytes → List (Node A) → Option (Result MultiRaftError ProposeOk)
  first_answer group bytes [] = none
  first_answer group bytes (n ∷ ns) =
      let rest = first_answer group bytes ns in
      if leads A group n then some (propose_on A group bytes n).0 else rest

  propose_first-Proposed :
      (group : ℕ) (source : KeySource) (ns : List (Node A))
      → Proposed
          (total_entries A L serde group ns)
          (total_entries A L serde group (propose_first A serde group source ns).1)
          (first_answer group (encode_add serde 1 (next_idem source).0) ns)
  unfolding propose_first first_answer
  propose_first-Proposed group source [] = refl
  propose_first-Proposed group source (n ∷ ns) = elim (Bool-cases (leads A group n)) [
    | inl e ↦ rw e (
        Grows-plus _ _ (total_entries A L serde group ns) _
          (propose_on-Grows A L serde group (encode_add serde 1 (next_idem source).0) n))
    | inr e ↦ rw e (
        Proposed-plus _ _ (node_entries A L serde group n) _
          (propose_first-Proposed group source ns))
  ]

  -- The nodes have the group xs they had it.
  abbrev Unchanged : ℕ → List (Node A) → List (Node A) → Type 0
  Unchanged group [] [] = Unit
  Unchanged group [] (m ∷ ms) = ⊥
  Unchanged group (n ∷ ns) [] = ⊥
  Unchanged group (n ∷ ns) (m ∷ ms) =
      (lookup group m.groups ≡ lookup group n.groups) × Unchanged group ns ms

  Unchanged-refl : (group : ℕ) (ns : List (Node A)) → Unchanged group ns ns
  Unchanged-refl group [] = tt
  Unchanged-refl group (n ∷ ns) = (refl, Unchanged-refl group ns)

  Unchanged-trans :
      (group : ℕ) (xs ys zs : List (Node A))
      → Unchanged group xs ys
      → Unchanged group ys zs
      → Unchanged group xs zs
  Unchanged-trans group [] [] zs h k = k
  Unchanged-trans group [] (b ∷ ys) zs h k = elim h [ ]
  Unchanged-trans group (a ∷ xs) [] zs h k = elim h [ ]
  Unchanged-trans group (a ∷ xs) (b ∷ ys) [] h k = k
  Unchanged-trans group (a ∷ xs) (b ∷ ys) (c ∷ zs) h k =
      (k.0 ∙ h.0, Unchanged-trans group xs ys zs h.1 k.1)

  Unchanged-total :
      (group : ℕ) (ns ms : List (Node A))
      → Unchanged group ns ms
      → total_entries A L serde group ms ≡ total_entries A L serde group ns
  Unchanged-total group [] [] h = refl
  Unchanged-total group [] (m ∷ ms) h = elim h [ ]
  Unchanged-total group (n ∷ ns) [] h = elim h [ ]
  Unchanged-total group (n ∷ ns) (m ∷ ms) h = rw (h.0, Unchanged-total group ns ms h.1) refl

  write_at-result :
      (group : ℕ) (bytes : Bytes) (gs hs : Groups A) (o : Option A.Group)
      → (write_at A L serde group bytes gs o).0 ≡ (write_at A L serde group bytes hs o).0
  write_at-result group bytes gs hs none = refl
  write_at-result group bytes gs hs (some app) = refl

  propose_eq :
      (group : ℕ) (bytes : Bytes) (n m : Node A)
      → lookup group m.groups ≡ lookup group n.groups
      → (propose_on A group bytes m).0 ≡ (propose_on A group bytes n).0
  unfolding Requests.propose
  propose_eq group bytes n m h =
      write_at-result group bytes m.groups n.groups (lookup group m.groups)
      ∙ ap (λ o. (write_at A L serde group bytes n.groups o).0) h

  leads_eq :
      (group : ℕ) (n m : Node A)
      → lookup group m.groups ≡ lookup group n.groups
      → leads A group m ≡ leads A group n
  unfolding Requests.is_leader
  leads_eq group n m h = ap (λ o. elim o [ none ↦ false | some app ↦ A.is_leader app ]) h

  Unchanged-answer :
      (group : ℕ) (bytes : Bytes) (ns ms : List (Node A))
      → Unchanged group ns ms
      → first_answer group bytes ms ≡ first_answer group bytes ns
  unfolding first_answer
  Unchanged-answer group bytes [] [] h = refl
  Unchanged-answer group bytes [] (m ∷ ms) h = elim h [ ]
  Unchanged-answer group bytes (n ∷ ns) [] h = elim h [ ]
  Unchanged-answer group bytes (n ∷ ns) (m ∷ ms) h =
      rw
        (
          leads_eq group n m h.0,
          propose_eq group bytes n m h.0,
          Unchanged-answer group bytes ns ms h.1,
        )
        refl

  write_at-other :
      (group at : ℕ) (bytes : Bytes) (gs : Groups A) (o : Option A.Group)
      → (group == at) ≡ false
      → lookup at (write_at A L serde group bytes gs o).1 ≡ lookup at gs
  write_at-other group at bytes gs none h = refl
  write_at-other group at bytes gs (some app) h =
      rw (lookup-insert group at (A.client_write bytes app).1 gs, h) refl

  propose-other :
      (group at : ℕ) (bytes : Bytes) (n : Node A)
      → (group == at) ≡ false
      → lookup at (propose_on A group bytes n).1.groups ≡ lookup at n.groups
  unfolding Requests.propose
  propose-other group at bytes n h =
      write_at-other group at bytes n.groups (lookup group n.groups) h

  propose_first-other :
      (group at : ℕ) (source : KeySource) (ns : List (Node A))
      → (group == at) ≡ false
      → Unchanged at ns (propose_first A serde group source ns).1
  unfolding propose_first
  propose_first-other group at source [] h = tt
  propose_first-other group at source (n ∷ ns) h = elim (Bool-cases (leads A group n)) [
    | inl e ↦
        rw e (
          propose-other group at (encode_add serde 1 (next_idem source).0) n h,
          Unchanged-refl at ns,
        )
    | inr e ↦ rw e (refl, propose_first-other group at source ns h)
  ]

  propose_round-other :
      (gids : List ℕ) (at : ℕ) (source : KeySource) (ns : List (Node A))
      → contains gids at ≡ false
      → Unchanged at ns (propose_round A serde gids source ns).1
  unfolding propose_round contains
  propose_round-other [] at source ns h = Unchanged-refl at ns
  propose_round-other (gid ∷ gids) at source ns h =
      let (source', ns') = propose_first A serde gid source ns in
      Unchanged-trans at ns ns' (propose_round A serde gids source' ns').1
        (propose_first-other gid at source ns (ground arith))
        (propose_round-other gids at source' ns' (ground arith))

  -- A round of the background loop over groups of which one is listed once changes the entries of
  -- that group, over all nodes of the process, as the first node that leads it answers to one
  -- proposal of an increment by 1, under some key: by one if it is accepted, by one at most if it
  -- fails, and not at all if no node leads the group or the node has just lost it.
  pub propose_round-Proposed :
      (group : ℕ) (before after : List ℕ) (source : KeySource) (ns : List (Node A))
      → contains before group ≡ false
      → contains after group ≡ false
      → (idem : ℕ) × Proposed
          (total_entries A L serde group ns)
          (total_entries A L serde group
            (propose_round A serde (before ++ (group ∷ after)) source ns).1)
          (first_answer group (encode_add serde 1 idem) ns)
  unfolding propose_round contains
  propose_round-Proposed group [] after source ns h k =
      let (source', ns') = propose_first A serde group source ns in
      (
        (next_idem source).0,
        subst
            (λ x.
              Proposed (total_entries A L serde group ns) x
                (first_answer group (encode_add serde 1 (next_idem source).0) ns))
            (sym (
              Unchanged-total group ns' (propose_round A serde after source' ns').1
                (propose_round-other after group source' ns' k)))
            (propose_first-Proposed group source ns),
      )
  propose_round-Proposed group (gid ∷ before) after source ns h k =
      let (source', ns') = propose_first A serde gid source ns in
      let (idem, p) = propose_round-Proposed group before after source' ns' (ground arith) k in
      let u = propose_first-other gid group source ns (ground arith) in
      (
        idem,
        subst
            (λ x.
              Proposed x
                (total_entries A L serde group
                  (propose_round A serde (before ++ (group ∷ after)) source' ns').1)
                (first_answer group (encode_add serde 1 idem) ns))
            (Unchanged-total group ns ns' u)
            (subst
              (λ x.
                Proposed (total_entries A L serde group ns')
                  (total_entries A L serde group
                    (propose_round A serde (before ++ (group ∷ after)) source' ns').1)
                  x)
              (Unchanged-answer group (encode_add serde 1 idem) ns ns' u) p),
      )
