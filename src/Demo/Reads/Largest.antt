-- ===== src/Demo/Reads/Largest.antt =====
-- The loop over the local state machines finds the largest of their values.
use bf_multiraft.Base.{
  ℕ, ◌≡◌, ◌≤◌, refl, sym, ap, ◌∙◌, Bool-cases, inl, inr, ◌⊎◌, Option, none, some, List, [], ◌∷◌,
  arith, All, ltb,
}
use bf_multiraft.Fsm.Counter.{CounterFsm}
use bf_multiraft.Facade.Requests.{RaftApi}
use bf_multiraft.Demo.Nodes.{Node}
use bf_multiraft.Demo.Reads.{rank, max_i64, local_value, better, read_local}

-- No value, or one that is not above `v`.
abbrev pub Bounded : ℕ → Option ℕ → Type 0
Bounded v none = Unit
Bounded v (some w) = rank w ≤ rank v

max_i64-rank : (b v : ℕ) → (rank b ≤ rank (max_i64 b v)) × (rank v ≤ rank (max_i64 b v))
max_i64-rank b v = (ground arith, ground arith)

max_i64-either : (b v : ℕ) → (max_i64 b v ≡ b) ⊎ (max_i64 b v ≡ v)
max_i64-either b v = elim (Bool-cases (ltb (rank b) (rank v))) [
  | inl e ↦ rw e (inr refl)
  | inr e ↦ rw e (inl refl)
]

module _ (A : RaftApi CounterFsm) (group : ℕ) where
  abbrev pub Held : ℕ → List (Node A) → Type 0
  Held v [] = ⊥
  Held v (n ∷ ns) = (local_value A group n ≡ some v) ⊎ Held v ns

  abbrev pub AllBounded : ℕ → List (Node A) → Type 0
  AllBounded v = All (λ n. Bounded v (local_value A group n))

  abbrev pub NoneHeld : List (Node A) → Type 0
  NoneHeld = All (λ n. local_value A group n ≡ none)

  -- What the loop gives, if `best` is what it starts from.
  abbrev pub Largest : Option ℕ → List (Node A) → Option ℕ → Type 0
  Largest best ns none = (best ≡ none) × NoneHeld ns
  Largest best ns (some v) = ((best ≡ some v) ⊎ Held v ns) × Bounded v best × AllBounded v ns

  -- The same, with the value of one more node at the front.
  abbrev LargestWith : Option ℕ → Option ℕ → List (Node A) → Option ℕ → Type 0
  LargestWith best o ns none = (best ≡ none) × (o ≡ none) × NoneHeld ns
  LargestWith best o ns (some v) =
      ((best ≡ some v) ⊎ (o ≡ some v) ⊎ Held v ns) × Bounded v best × Bounded v o × AllBounded v ns

  better-LargestWith :
      (best o : Option ℕ) (ns : List (Node A)) (r : Option ℕ)
      → Largest (better A best o) ns r
      → LargestWith best o ns r
  better-LargestWith best none ns none (e, h) = (e, refl, h)
  better-LargestWith none (some w) ns none (e, h) = cc
  better-LargestWith (some b) (some w) ns none (e, h) = cc
  better-LargestWith best none ns (some v) (inl e, h, all) = (inl e, h, tt, all)
  better-LargestWith best none ns (some v) (inr held, h, all) = (inr (inr held), h, tt, all)
  better-LargestWith none (some w) ns (some v) (inl e, h, all) = (inr (inl e), tt, h, all)
  better-LargestWith none (some w) ns (some v) (inr held, h, all) = (inr (inr held), tt, h, all)
  better-LargestWith (some b) (some w) ns (some v) (inr held, h, all) =
      (inr (inr held), omega (arith, h, max_i64-rank b w), omega (arith, h, max_i64-rank b w), all)
  better-LargestWith (some b) (some w) ns (some v) (inl e, h, all) = (
    elim (max_i64-either b w) [
      | inl f ↦ inl (ap some (sym f) ∙ e)
      | inr f ↦ inr (inl (ap some (sym f) ∙ e))
    ],
    omega (arith, h, max_i64-rank b w),
    omega (arith, h, max_i64-rank b w),
    all,
  )

  cons-Largest :
      (best : Option ℕ) (n : Node A) (ns : List (Node A)) (r : Option ℕ)
      → LargestWith best (local_value A group n) ns r
      → Largest best (n ∷ ns) r
  cons-Largest best n ns none (e, f, h) = (e, (f, h))
  cons-Largest best n ns (some v) (held, h, bound, all) = (held, h, (bound, all))

  pub read_local-Largest :
      (best : Option ℕ) (ns : List (Node A)) → Largest best ns (read_local A group best ns)
  unfolding read_local
  read_local-Largest none [] = (refl, tt)
  read_local-Largest (some b) [] = (inl refl, omega arith, tt)
  read_local-Largest best (n ∷ ns) =
      cons-Largest best n ns (read_local A group (better A best (local_value A group n)) ns) (
        better-LargestWith best (local_value A group n) ns
          (read_local A group (better A best (local_value A group n)) ns)
          (read_local-Largest (better A best (local_value A group n)) ns))
