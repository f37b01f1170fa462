-- ===== src/Facade/Leaders/Wait.antt =====
-- The wait for a leader ends, and finds a leader that shows before the deadline.
use bf_multiraft.Base.{
  ℕ, zero, suc, ◌+◌, ◌*◌, ◌/◌, ◌≤◌, ◌<◌, ◌≡◌, refl, false, Bool-cases, inl, inr, Option, split_le,
  clock_mono, Option-cases, none, some, arith, sym, ltb, List,
}
use bf_multiraft.Facade.Leaders.{View, scan, wait_for_leader}

-- A round that sleeps takes 50 ms or more.
abbrev pub Sleeps : (ℕ → ℕ) → Type 0
Sleeps clock = (k : ℕ) → clock k + 50 ≤ clock (suc k)

-- What the wait from round `k` on may give: the leader of the first round that shows one, if that
-- round starts before the deadline, and nothing if every round before the deadline shows none.
abbrev pub Answers : ℕ → ℕ → (ℕ → ℕ) → (ℕ → List View) → Option ℕ → Type 0
Answers k deadline clock look none = (n : ℕ) → k ≤ n → clock n < deadline → scan (look n) ≡ none
Answers k deadline clock look (some l) =
    (n : ℕ) × (k ≤ n)
    × (clock n < deadline)
    × (scan (look n) ≡ some l)
    × ((i : ℕ) → k ≤ i → i < n → scan (look i) ≡ none)

module _ (deadline : ℕ) (clock : ℕ → ℕ) (look : ℕ → List View) (sleeps : Sleeps clock) where
  late : (k : ℕ) → ltb (clock k) deadline ≡ false → Answers k deadline clock look none
  late k e n le lt = ground (arith, clock_mono clock (λ j. omega (arith, sleeps j)) k n le)

  later :
      (k : ℕ)
      → scan (look k) ≡ none
      → (r : Option ℕ) → Answers (suc k) deadline clock look r
      → Answers k deadline clock look r
  later k f none h =
      λ n le lt. elim (split_le k n le) [ inl e' ↦ rw (sym e') f | inr le' ↦ h n le' lt ]
  later k f (some l) (n, le, lt, e, first) = (
    n,
    omega arith,
    lt,
    e,
    λ i le' lt'. elim (split_le k i le') [ inl e' ↦ rw (sym e') f | inr le'' ↦ first i le'' lt' ],
  )

  -- What is to be proved of the wait from round `k` on.
  abbrev Ends : ℕ → ℕ → Type 0
  Ends fuel k =
      (r : Option ℕ) × (wait_for_leader fuel k deadline clock look ≡ some r)
      × Answers k deadline clock look r

  ends : (fuel k : ℕ) → deadline ≤ clock k + 50 * fuel → Ends (suc fuel) k
  unfolding wait_for_leader
  ends zero k h =
      let e : ltb (clock k) deadline ≡ false = ground arith in rw e (none, refl, late k e)
  ends (suc fuel) k h = elim (Bool-cases (ltb (clock k) deadline)) [
    | inr e ↦ rw e (none, refl, late k e)
    | inl e ↦ elim (Option-cases (scan (look k))) [
      | inr (l, f) ↦
          rw (e, f) (some l, refl, (k, omega arith, ground arith, f, λ i le lt. grind arith))
      | inl f ↦
          let (r, g, a) = ends fuel (suc k) (omega (arith, sleeps k)) in
          rw (e, f) (r, g, later k f r a)
    ]
  ]

-- Where a round that sleeps takes 50 ms or more, a `wait_for_leader` that may wait `timeout` ms
-- ends: any fuel above `timeout / 50 + 1` is enough. It gives the leader of the first round that
-- shows one, if that round starts before the deadline; it gives nothing only if no round before the
-- deadline shows one.
pub wait_for_leader-Answers :
    (timeout fuel : ℕ) (clock : ℕ → ℕ) (look : ℕ → List View)
    → Sleeps clock
    → timeout / 50 + 1 < fuel
    → (r : Option ℕ) × (wait_for_leader fuel 0 (clock 0 + timeout) clock look ≡ some r)
      × Answers 0 (clock 0 + timeout) clock look r
wait_for_leader-Answers timeout zero clock look sleeps h = ground arith
wait_for_leader-Answers timeout (suc fuel) clock look sleeps h =
    ends (clock 0 + timeout) clock look sleeps fuel 0 (grind arith)
