-- ===== src/Core/Decimal.antt =====
-- The decimal text of a number, as `format!` and `to_string` write it, and the names
-- `{index}-{term}` that the snapshot code builds from it.
use bf_multiraft.Base.{
  ℕ, zero, suc, ◌+◌, ◌-◌, ◌*◌, ◌/◌, ◌%◌, ◌≤◌, ◌<◌, ◌≡◌, refl, [], ◌∷◌, ◌++◌, arith, Bytes, ltb,
  ◌==◌, if◌then◌else◌, All, Bool, true, false, Bool-cases, inl, inr,
}

-- The digits of `n`, on fuel that `n` itself gives: each step divides by ten.
unfoldable pub digits : ℕ → ℕ → Bytes
digits zero n = []
digits (suc fuel) n =
    let before = digits fuel (n / 10) in
    if ltb n 10 then (48 + n) ∷ [] else before ++ ((48 + n % 10) ∷ [])

abbrev pub to_string : ℕ → Bytes
to_string n = digits (suc n) n

-- `format!("{index}-{term}")`.
unfoldable pub dir_name : ℕ → ℕ → Bytes
dir_name index term = to_string index ++ (45 ∷ to_string term)

-- The number that a text of digits denotes, after digits that denote `n`.
unfoldable pub of_digits : ℕ → Bytes → ℕ
of_digits n [] = n
of_digits n (d ∷ ds) = of_digits (n * 10 + (d - 48)) ds

-- The two numbers of a name, read up to the dash and after it.
unfoldable pub read_name : ℕ → Bytes → ℕ × ℕ
read_name n [] = (n, 0)
read_name n (d ∷ ds) =
    let rest = read_name (n * 10 + (d - 48)) ds in if d == 45 then (n, of_digits 0 ds) else rest

abbrev IsDigit : ℕ → Type 0
IsDigit d = (48 ≤ d) × (d ≤ 57)

of_digits-append : (n : ℕ) (s t : Bytes) → of_digits n (s ++ t) ≡ of_digits (of_digits n s) t
unfolding of_digits
of_digits-append n [] t = refl
of_digits-append n (d ∷ s) t = of_digits-append (n * 10 + (d - 48)) s t

All-append_one : (s : Bytes) (d : ℕ) → All IsDigit s → IsDigit d → All IsDigit (s ++ (d ∷ []))
All-append_one [] d h k = (k, tt)
All-append_one (c ∷ s) d h k = (h.0, All-append_one s d h.1 k)

All-if :
    (b : Bool) (s t : Bytes)
    → (b ≡ true → All IsDigit s)
    → (b ≡ false → All IsDigit t)
    → All IsDigit (if b then s else t)
All-if true s t f g = f refl
All-if false s t f g = g refl

All-digits : (fuel n : ℕ) → All IsDigit (digits fuel n)
unfolding digits
All-digits zero n = tt
All-digits (suc fuel) n =
    All-if (ltb n 10) ((48 + n) ∷ []) (digits fuel (n / 10) ++ (48 + n % 10) ∷ [])
      (λ h. ((omega arith, ground arith), tt))
      (λ h.
        All-append_one (digits fuel (n / 10)) (48 + n % 10) (All-digits fuel (n / 10))
          (omega arith, omega arith))

-- With more fuel than the number, its digits denote it.
pub of_digits-digits : (fuel n : ℕ) → n < fuel → of_digits 0 (digits fuel n) ≡ n
unfolding of_digits digits
of_digits-digits zero n h = omega arith
of_digits-digits (suc fuel) n h = elim (Bool-cases (ltb n 10)) [
  | inl e ↦ ground arith
  | inr e ↦
      let q : n / 10 < fuel = ground arith in
      ground (
        arith,
        of_digits-append 0 (digits fuel (n / 10)) ((48 + n % 10) ∷ []),
        of_digits-digits fuel (n / 10) q,
      )
]

read_name-append :
    (n : ℕ) (s t : Bytes)
    → All IsDigit s
    → read_name n (s ++ (45 ∷ t)) ≡ (of_digits n s, of_digits 0 t)
unfolding of_digits read_name
read_name-append n [] t h = ground arith
read_name-append n (d ∷ s) t h = ground (arith, read_name-append (n * 10 + (d - 48)) s t h.1, h.0.0)

-- The name of a snapshot directory determines its index and term.
pub read_name-dir_name : (index term : ℕ) → read_name 0 (dir_name index term) ≡ (index, term)
unfolding dir_name
read_name-dir_name index term =
    rw
      (
        read_name-append 0 (to_string index) (to_string term) (All-digits (suc index) index),
        of_digits-digits (suc index) index (omega arith),
        of_digits-digits (suc term) term (omega arith),
      )
      refl
