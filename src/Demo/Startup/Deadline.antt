-- ===== src/Demo/Startup/Deadline.antt =====
-- The wait for the leaders ends, and tells whether each was seen.
use bf_multiraft.Base.{
  ℕ, zero, suc, ◌+◌, ◌*◌, ◌/◌, ◌≤◌, ◌<◌, ◌≡◌, refl, Bool, true, false, Bool-cases, inl, inr, Option,
  none, some, arith, leb, List, [], ◌∷◌, All, contains, clock_mono,
}
use bf_multiraft.Demo.Startup.{wait_group, wait_next, wait_local_sees_leaders}

-- A round that sleeps takes 100 ms or more.
abbrev pub Sleeps : (ℕ → ℕ) → Type 0
Sleeps clock = (k : ℕ) → clock k + 100 ≤ clock (suc k)

-- What the wait for one group gives: a round in which the node sees a leader, or a round after the
-- deadline in which it does not.
abbrev Ends : ℕ → ℕ → (ℕ → ℕ) → (ℕ → Bool) → Option (Option ℕ) → Type 0
Ends k deadline clock sees none = ⊥
Ends k deadline clock sees (some (some n)) = (k ≤ n) × (sees n ≡ true)
Ends k deadline clock sees (some none) = (n : ℕ) × (k ≤ n) × (deadline ≤ clock n) × (sees n ≡ false)

-- What the wait for several groups may give.
abbrev pub AllEnd : ℕ → (ℕ → ℕ) → (ℕ → ℕ → Bool) → List ℕ → Option Bool → Type 0
AllEnd deadline clock sees gids none = ⊥
AllEnd deadline clock sees gids (some true) = All (λ gid. (n : ℕ) × (sees gid n ≡ true)) gids
AllEnd deadline clock sees gids (some false) =
    (gid : ℕ) × (contains gids gid ≡ true) × ((n : ℕ) × (deadline ≤ clock n) × (sees gid n ≡ false))

module _ (deadline : ℕ) (clock : ℕ → ℕ) (sleeps : Sleeps clock) where
  later :
      (k : ℕ) (sees : ℕ → Bool) (r : Option (Option ℕ))
      → Ends (suc k) deadline clock sees r
      → Ends k deadline clock sees r
  later k sees none x = elim x [ ]
  later k sees (some (some n)) (le, h) = (omega arith, h)
  later k sees (some none) (n, le, lt, h) = (n, omega arith, lt, h)

  wait_group-Ends :
      (sees : ℕ → Bool) (fuel k : ℕ)
      → deadline ≤ clock k + 100 * fuel
      → Ends k deadline clock sees (wait_group (suc fuel) k deadline clock sees)
  unfolding wait_group
  wait_group-Ends sees zero k h = elim (Bool-cases (sees k)) [
    | inl e ↦ rw e (omega arith, e)
    | inr e ↦
        let f : leb deadline (clock k) ≡ true = ground arith in
        rw (e, f) (k, omega arith, ground arith, e)
  ]
  wait_group-Ends sees (suc fuel) k h = elim (Bool-cases (sees k)) [
    | inl e ↦ rw e (omega arith, e)
    | inr e ↦ elim (Bool-cases (leb deadline (clock k))) [
      | inl f ↦ rw (e, f) (k, omega arith, ground arith, e)
      | inr f ↦
          rw (e, f)
            (later k sees (wait_group (suc fuel) (suc k) deadline clock sees)
              (wait_group-Ends sees fuel (suc k) (omega (arith, sleeps k))))
    ]
  ]

  cons-AllEnd :
      (sees : ℕ → ℕ → Bool) (gid : ℕ) (gids : List ℕ) (k n : ℕ) (r : Option Bool)
      → sees gid n ≡ true
      → AllEnd deadline clock sees gids r
      → AllEnd deadline clock sees (gid ∷ gids) r
  unfolding contains
  cons-AllEnd sees gid gids k n none e x = elim x [ ]
  cons-AllEnd sees gid gids k n (some true) e h = ((n, e), h)
  cons-AllEnd sees gid gids k n (some false) e (g, m, late) = (g, ground (arith, m), late)

  next-AllEnd :
      (sees : ℕ → ℕ → Bool) (gid : ℕ) (gids : List ℕ) (k : ℕ) (next : ℕ → Option Bool)
      (r : Option (Option ℕ))
      → Ends k deadline clock (sees gid) r
      → ((n : ℕ) → k ≤ n → AllEnd deadline clock sees gids (next n))
      → AllEnd deadline clock sees (gid ∷ gids) (wait_next r next)
  unfolding contains
  next-AllEnd sees gid gids k next none x h = elim x [ ]
  next-AllEnd sees gid gids k next (some none) (n, le, late, e) h =
      (gid, ground arith, (n, late, e))
  next-AllEnd sees gid gids k next (some (some n)) (le, e) h =
      cons-AllEnd sees gid gids k n (next n) e (h n le)

  wait-AllEnd :
      (sees : ℕ → ℕ → Bool) (gids : List ℕ) (fuel k : ℕ)
      → deadline ≤ clock k + 100 * fuel
      → AllEnd deadline clock sees gids
          (wait_local_sees_leaders (suc fuel) k deadline clock sees gids)
  unfolding wait_local_sees_leaders
  wait-AllEnd sees [] fuel k h = tt
  wait-AllEnd sees (gid ∷ gids) fuel k h =
      next-AllEnd sees gid gids k
        (λ n. wait_local_sees_leaders (suc fuel) n deadline clock sees gids)
        (wait_group (suc fuel) k deadline clock (sees gid)) (wait_group-Ends (sees gid) fuel k h)
        (λ n le.
          wait-AllEnd sees gids fuel n
            (omega (arith, h, clock_mono clock (λ j. omega (arith, sleeps j)) k n le)))

-- Where a round that sleeps takes 100 ms or more, the wait for the leaders of all groups ends: any
-- fuel above `timeout / 100 + 1` is enough. If it succeeds, the node has seen a leader of each
-- group; if it fails, then of one of them it saw none when the deadline had passed.
pub wait_local_sees_leaders-AllEnd :
    (timeout fuel : ℕ) (clock : ℕ → ℕ) (sees : ℕ → ℕ → Bool) (gids : List ℕ)
    → Sleeps clock
    → timeout / 100 + 1 < fuel
    → (r : Bool) × (wait_local_sees_leaders fuel 0 (clock 0 + timeout) clock sees gids ≡ some r)
      × AllEnd (clock 0 + timeout) clock sees gids (some r)
wait_local_sees_leaders-AllEnd timeout zero clock sees gids sleeps h = ground arith
wait_local_sees_leaders-AllEnd timeout (suc fuel) clock sees gids sleeps h =
    ended (wait_local_sees_leaders (suc fuel) 0 (clock 0 + timeout) clock sees gids)
      (wait-AllEnd (clock 0 + timeout) clock sleeps sees gids fuel 0 (grind arith))
  where
    ended :
        (r : Option Bool)
        → AllEnd (clock 0 + timeout) clock sees gids r
        → (b : Bool) × (r ≡ some b) × AllEnd (clock 0 + timeout) clock sees gids (some b)
    ended none x = elim x [ ]
    ended (some b) h = (b, refl, h)
