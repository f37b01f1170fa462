-- ===== src/Base/Bits.antt =====
-- Masks and disjoint bits: what `x & (2 ^ k - 1)` and `a << k | r` are.
use Prim.Native.Nat.{
  ℕ, zero, suc, ◌+◌, ◌-◌, ◌*◌, ◌/◌, ◌%◌, ◌^◌, ◌≤◌, ◌<◌, min, max, bit_and, bit_or, bit_and-bitwise,
  bit_or-bitwise, digits, bitwise,
}
use mathlib.Core.Path.{◌≡◌, refl, ap, ◌∙◌}
use native.Mathlib.Omega.{arith}

-- Any fuel that the first number does not exceed gives the same digits.
digits-enough :
    (z : ℕ → ℕ) (f : ℕ → ℕ → ℕ) (fuel a b : ℕ) → a ≤ fuel → digits z f fuel a b ≡ bitwise z f a b
digits-enough z f fuel a b h = go fuel a a b h (omega arith)
  where
    go : (m n x y : ℕ) → x ≤ m → x ≤ n → digits z f m x y ≡ digits z f n x y
    go zero zero x y hm hn = refl
    go zero (suc n) zero y hm hn = refl
    go zero (suc n) (suc x) y hm hn = absurd (omega arith)
    go (suc m) zero zero y hm hn = refl
    go (suc m) zero (suc x) y hm hn = absurd (omega arith)
    go (suc m) (suc n) zero y hm hn = refl
    go (suc m) (suc n) (suc x) y hm hn =
        omega (arith, go m n (suc x / 2) (y / 2) (omega arith) (omega arith))

zero-and : (b : ℕ) → bit_and 0 b ≡ 0
zero-and b = bit_and-bitwise 0 b

zero-or : (b : ℕ) → bit_or 0 b ≡ b
zero-or b = bit_or-bitwise 0 b

and_halves : (a b : ℕ) → bit_and a b ≡ 2 * bit_and (a / 2) (b / 2) + min (a % 2) (b % 2)
and_halves zero b = omega (arith, zero-and b, zero-and (b / 2))
and_halves (suc a) b = omega (
  arith,
  bit_and-bitwise (suc a) b,
  bit_and-bitwise (suc a / 2) (b / 2),
  digits-enough (λ y. zero) min a (suc a / 2) (b / 2) (omega arith),
)

or_halves : (a b : ℕ) → bit_or a b ≡ 2 * bit_or (a / 2) (b / 2) + max (a % 2) (b % 2)
or_halves zero b = omega (arith, zero-or b, zero-or (b / 2))
or_halves (suc a) b = omega (
  arith,
  bit_or-bitwise (suc a) b,
  bit_or-bitwise (suc a / 2) (b / 2),
  digits-enough (λ y. y) max a (suc a / 2) (b / 2) (omega arith),
)

halving : (P : ℕ → Type 0) → P 0 → ((a : ℕ) → P (a / 2) → P a) → (a : ℕ) → P a
halving P base step a = go a a (omega arith)
  where
    go : (fuel a : ℕ) → a ≤ fuel → P a
    go fuel zero h = base
    go zero (suc a) h = absurd (omega arith)
    go (suc fuel) (suc a) h = step (suc a) (go fuel (suc a / 2) (omega arith))

or-zero : (a : ℕ) → bit_or a 0 ≡ a
or-zero = halving (λ a. bit_or a 0 ≡ a) refl λ a h. omega (arith, or_halves a 0)

and-zero : (a : ℕ) → bit_and a 0 ≡ 0
and-zero = halving (λ a. bit_and a 0 ≡ 0) refl λ a h. omega (arith, and_halves a 0)

pub power_pos : (k : ℕ) → 0 < 2 ^ k
power_pos zero = omega arith
power_pos (suc k) = omega (arith, power_pos k)

power_suc : (k : ℕ) → 2 ^ suc k ≡ 2 * 2 ^ k
power_suc k = omega arith

pub mod_double : (a p : ℕ) → 0 < p → a % (2 * p) ≡ 2 * (a / 2 % p) + a % 2
mod_double a p h = grind arith

twice : (a p : ℕ) → a * (2 * p) ≡ 2 * (a * p)
twice a p = grind arith

pub and-mask : (k a : ℕ) → bit_and a (2 ^ k - 1) ≡ a % 2 ^ k
and-mask zero a = omega (arith, and-zero a)
and-mask (suc k) a = omega (
  arith,
  and_halves a (2 ^ suc k - 1),
  power_pos k,
  ap (bit_and (a / 2)) half,
  and-mask k (a / 2),
  mod_double a (2 ^ k) (power_pos k),
  ap (λ p. a % p) (power_suc k),
)
  where
    half : (2 ^ suc k - 1) / 2 ≡ 2 ^ k - 1
    half = omega (arith, power_pos k)

pub or-shifted : (k a r : ℕ) → r < 2 ^ k → bit_or (a * 2 ^ k) r ≡ a * 2 ^ k + r
or-shifted zero a r h = omega (arith, ap (bit_or (a * 1)) zeroed, or-zero (a * 1))
  where
    zeroed : r ≡ 0
    zeroed = omega arith
or-shifted (suc k) a r h = omega (
  arith,
  or_halves (a * 2 ^ suc k) r,
  ap (λ x. bit_or x (r / 2)) half,
  or-shifted k a (r / 2) (omega arith),
  even,
)
  where
    even : a * 2 ^ suc k ≡ 2 * (a * 2 ^ k)
    even = ap (λ p. a * p) (power_suc k) ∙ twice a (2 ^ k)

    half : a * 2 ^ suc k / 2 ≡ a * 2 ^ k
    half = omega (arith, even)
