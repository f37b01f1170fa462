-- ===== src/Demo/Keys/Counted.antt =====
-- Each increment under a key that a process has made up counts.
use bf_multiraft.Base.{
  ℕ, ◌+◌, ◌%◌, ◌^◌, ◌<◌, ◌≡◌, refl, ap, ap₂, ◌∙◌, Bool-cases, inl, inr, false, not, List, [], ◌∷◌,
  map, length, All, arith, ◌==◌, ==_iff, retain, contains,
}
use bf_multiraft.Fsm.Counter.{Cmd, new, value}
use bf_multiraft.Fsm.Counter.ExactlyOnce.{apply_all, first_uses, unseen, total, value-apply_all}
use bf_multiraft.OrdMap.{lookup}
use bf_multiraft.Demo.{key_source}
use bf_multiraft.Demo.Keys.{nth_key, nth_key-Unique}

-- An increment: the process that proposes it, and how many keys the process has made up before.
abbrev pub Call : Type 0
Call = ℕ × ℕ

abbrev pub Small : Call → Type 0
Small (node, n) = (node < 2 ^ 32) × (n < 2 ^ 32)

abbrev pub Differs : Call → Call → Type 0
Differs a b = a ≡ b → ⊥

abbrev pub AllDiffer : List Call → Type 0
AllDiffer [] = Unit
AllDiffer (c ∷ cs) = All (Differs c) cs × AllDiffer cs

-- The command of `CounterFsm::encode_add(1, idem)`.
abbrev pub increment : Call → Cmd
increment (node, n) = record { idem = nth_key n (key_source node); delta = 1 }

abbrev pub increments : List Call → List Cmd
increments = map increment

keys-differ :
    (a b : Call)
    → Small a
    → Small b
    → Differs a b
    → ((increment a).idem == (increment b).idem) ≡ false
keys-differ (node, n) (node', n') (h, l) (h', l') d =
    elim (Bool-cases (nth_key n (key_source node) == nth_key n' (key_source node'))) [
      | inr e ↦ e
      | inl e ↦
          let (p, q) = nth_key-Unique node node' n n' h h' l l' ((==_iff _ _).0 e) in
          absurd (d (ap₂ (λ x y. (x, y)) p q))
    ]

kept :
    (c : Call) (cs : List Call)
    → Small c
    → All Small cs
    → All (Differs c) cs
    → retain (λ x. not ((increment c).idem == x.idem)) (increments cs) ≡ increments cs
unfolding retain
kept c [] s ss ds = refl
kept c (d ∷ cs) s (sd, ss) (dd, ds) =
    rw (keys-differ c d s sd dd) (ap (λ xs. increment d ∷ xs) (kept c cs s ss ds))

first_uses-increments :
    (cs : List Call) → All Small cs → AllDiffer cs → first_uses (increments cs) ≡ increments cs
unfolding first_uses
first_uses-increments [] ss ds = refl
first_uses-increments (c ∷ cs) (s, ss) (d, ds) =
    rw (first_uses-increments cs ss ds) (ap (λ xs. increment c ∷ xs) (kept c cs s ss d))

all-unseen : (cmds : List Cmd) → unseen [] cmds ≡ cmds
unfolding contains retain
all-unseen [] = refl
all-unseen (c ∷ cs) = ap (λ xs. c ∷ xs) (all-unseen cs)

total-increments : (cs : List Call) → total (increments cs) ≡ length cs
total-increments [] = refl
total-increments (c ∷ cs) = omega (arith, total-increments cs)

-- Increments of a group that processes with numbers below 2 ^ 32 propose under keys of their own,
-- each process less than 2 ^ 32 of them, in the order in which the group commits them: the counter,
-- empty before, holds their number, if it is below 2 ^ 64.
pub increments-Counted :
    (group : ℕ) (cs : List Call)
    → All Small cs
    → AllDiffer cs
    → length cs < 2 ^ 64
    → value (apply_all group (increments cs) new) group ≡ length cs
unfolding value lookup
increments-Counted group cs ss ds h =
    value-apply_all group (increments cs) new (omega arith)
    ∙ ap (λ xs. (0 + total (unseen [] xs)) % 2 ^ 64) (first_uses-increments cs ss ds)
    ∙ ap (λ xs. (0 + total xs) % 2 ^ 64) (all-unseen (increments cs))
    ∙ omega (arith, total-increments cs)
