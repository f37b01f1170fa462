-- ===== src/Demo/Run/Traced.antt =====
-- The loops of `run_cluster` as sequences of calls of `create_group`.
use bf_multiraft.Base.{
  ℕ, ◌+◌, ◌≡◌, refl, ap, sym, ◌∙◌, arith, List, [], ◌∷◌, ◌++◌, inl, inr, All, ◌==◌, ◌&&◌,
  if◌then◌else◌,
}
use bf_multiraft.Facade.{ClusterGlue, in_process, Created}
use bf_multiraft.Facade.InitOnce.{Create, create, initializations}
use bf_multiraft.Facade.InitOnce.Reached.{after, AnyStarts}
use bf_multiraft.Demo.Run.{Process, called}

-- How often a group is in a list.
unfoldable pub count : ℕ → List ℕ → ℕ
count g [] = 0
count g (x ∷ xs) = (if x == g then 1 else 0) + count g xs

count-append : (g : ℕ) (xs ys : List ℕ) → count g (xs ++ ys) ≡ count g xs + count g ys
unfolding count
count-append g [] ys = omega arith
count-append g (x ∷ xs) ys = omega (arith, count-append g xs ys)

count-called :
    (g gid : ℕ) (c : Created)
    → count g (called gid c) ≡ (if (gid == g) && c.calls_initialize then 1 else 0)
unfolding count
count-called g gid c = ground arith

after-append :
    (cs ds : List Create) (glue : ClusterGlue) → after (cs ++ ds) glue ≡ after ds (after cs glue)
after-append [] ds glue = refl
after-append (c ∷ cs) ds glue = after-append cs ds (create c glue).glue

initializations-append :
    (g : ℕ) (cs ds : List Create) (glue : ClusterGlue)
    → initializations g (cs ++ ds) glue
      ≡ initializations g cs glue + initializations g ds (after cs glue)
unfolding initializations
initializations-append g [] ds glue = omega arith
initializations-append g (c ∷ cs) ds glue =
    omega (arith, initializations-append g cs ds (create c glue).glue)

All-append {ℓ κ} :
    {A : Type ℓ} (P : A → Type κ) (xs ys : List A) → All P xs → All P ys → All P (xs ++ ys)
All-append P [] ys h k = k
All-append P (x ∷ xs) ys (h, hs) k = (h, All-append P xs ys hs k)

pub AnyStarts-left :
    (g : ℕ) (members : List ℕ) (m : ℕ) (cs ds : List Create)
    → AnyStarts g members m cs
    → AnyStarts g members m (cs ++ ds)
AnyStarts-left g members m [] ds x = elim x [ ]
AnyStarts-left g members m (c ∷ cs) ds (inl s) = inl s
AnyStarts-left g members m (c ∷ cs) ds (inr later) = inr (AnyStarts-left g members m cs ds later)

pub AnyStarts-right :
    (g : ℕ) (members : List ℕ) (m : ℕ) (cs ds : List Create)
    → AnyStarts g members m ds
    → AnyStarts g members m (cs ++ ds)
AnyStarts-right g members m [] ds h = h
AnyStarts-right g members m (c ∷ cs) ds h = inr (AnyStarts-right g members m cs ds h)

-- The calls of a process: in process, and with the members.
abbrev pub IsCall : List ℕ → Create → Type 0
IsCall members c = (c.node.net ≡ in_process) × (c.members ≡ members)

-- The calls that lead from the glue to what the process holds, with the initializations in them.
abbrev pub Traces : List ℕ → ClusterGlue → Process → List Create → Type 0
Traces members glue p cs =
    (p.glue ≡ after cs glue)
    × ((g : ℕ) → count g p.initialized ≡ initializations g cs glue)
    × All (IsCall members) cs

pub nil-Traces : (members : List ℕ) (p : Process) → p.initialized ≡ [] → Traces members p.glue p []
unfolding initializations count
nil-Traces members p h = (refl, (λ g. ap (count g) h), tt)

pub cons-Traces :
    (members : List ℕ) (call : Create) (glue : ClusterGlue) (p : Process) (cs : List Create)
    → IsCall members call
    → let c = create call glue in
      Traces members c.glue p cs
      → Traces members glue
          (record p {
            nodes = c.node ∷ p.nodes;
            initialized = called call.group c ++ p.initialized;
          })
          (call ∷ cs)
unfolding initializations
cons-Traces members call glue p cs ok_call (left, counts, all) =
    let c = create call glue in
    (
      left,
      λ g. omega (
        arith,
        count-append g (called call.group c) p.initialized,
        count-called g call.group c,
        counts g,
      ),
      (ok_call, all),
    )

pub stop-Traces :
    (members : List ℕ) (call : Create) (glue : ClusterGlue) (p : Process)
    → IsCall members call
    → let c = create call glue in
      p.glue ≡ c.glue → p.initialized ≡ called call.group c → Traces members glue p (call ∷ [])
unfolding initializations
stop-Traces members call glue p ok_call e f = (
  e,
  λ g. ap (count g) f ∙ omega (arith, count-called g call.group (create call glue)),
  (ok_call, tt),
)

pub append-Traces :
    (members : List ℕ) (glue : ClusterGlue) (p q : Process) (cs ds : List Create)
    → Traces members glue p cs
    → Traces members p.glue q ds
    → Traces members glue (record q { initialized = p.initialized ++ q.initialized }) (cs ++ ds)
append-Traces members glue p q cs ds (left, counts, all) (left', counts', all') = (
  left' ∙ ap (after ds) left ∙ sym (after-append cs ds glue),
  λ g.
      let moved : initializations g ds p.glue ≡ initializations g ds (after cs glue) =
        ap (initializations g ds) left in
      omega (
        arith,
        count-append g p.initialized q.initialized,
        counts g,
        counts' g,
        moved,
        initializations-append g cs ds glue,
      ),
  All-append (IsCall members) cs ds all all',
)
