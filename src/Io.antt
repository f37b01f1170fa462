-- ===== src/Io.antt =====
-- Fallible file operations. Each takes the next outcome from a schedule that the environment
-- chooses, so a theorem for every schedule covers every fault, and a crash is a schedule on which
-- all later operations fail.
use bf_multiraft.Base.{subst, ◌≡◌, refl, ◌⊎◌, inl, inr, Option, List, [], ◌∷◌, Bytes}

-- The kinds of `std::io::ErrorKind` that the stores tell apart.
pub data IoError : Type 0 where
  os invalid_data not_found other : IoError

pub data IoResult {ℓ} (A : Type ℓ) : Type ℓ where
  ok : A → IoResult A
  err : IoError → IoResult A

pub IoResult-cases {ℓ} :
    {A : Type ℓ} (r : IoResult A) → ((a : A) × (r ≡ ok a)) ⊎ ((e : IoError) × (r ≡ err e))
IoResult-cases (ok a) = inl (a, refl)
IoResult-cases (err e) = inr (e, refl)

-- A write that fails leaves its file alone, or leaves any bytes in it.
pub data Outcome : Type 0 where
  done : Outcome
  fails : Option Bytes → Outcome

-- What holds of the value under an `ok`.
pub of_ok {κ} : {A : Type 0} (P : A → Type κ) {a b : A} → ok a ≡ ok b → P a → P b
of_ok P {a} {b} e h = let q : a ≡ b = cc in subst P q h

pub record Env (D : Type 0) : Type 0 where
  pub disk : D
  pub pending : List Outcome

-- What the environment decides for the next operation; an empty schedule decides nothing badly.
abbrev pub next_outcome : List Outcome → Outcome
next_outcome [] = done
next_outcome (o ∷ rest) = o

abbrev pub rest_outcomes : List Outcome → List Outcome
rest_outcomes [] = []
rest_outcomes (o ∷ rest) = rest

abbrev pub Io : Type 0 → Type 0 → Type 0
Io D A = Env D → IoResult A × Env D

abbrev pub on_read : {A : Type 0} → Outcome → A → IoResult A
on_read done a = ok a
on_read (fails left) a = err os

module _ {D : Type 0} where
  abbrev pub pure : {A : Type 0} → A → Io D A
  pure a w = (ok a, w)

  abbrev pub lift : {A : Type 0} → IoResult A → Io D A
  lift r w = (r, w)

  abbrev pub continue : {A B : Type 0} → IoResult A → (A → Io D B) → Io D B
  continue (ok a) f w = f a w
  continue (err e) f w = (err e, w)

  continue-ok :
      {A B : Type 0} (r : IoResult A) (f : A → Io D B) (w : Env D) (b : B)
      → (continue r f w).0 ≡ ok b
      → (a : A) × (r ≡ ok a) × ((f a w).0 ≡ ok b)
  continue-ok (ok a) f w b h = (a, refl, h)
  continue-ok (err e) f w b h = cc

  infixl 5 ◌>>=◌ ◌>>◌
  abbrev pub ◌>>=◌ : {A B : Type 0} → Io D A → (A → Io D B) → Io D B
  ◌>>=◌ m f w = continue (m w).0 f (m w).1

  -- A result that is `ok` came from an `ok` of the first step.
  pub bind-ok :
      {A B : Type 0} (m : Io D A) (f : A → Io D B) (w : Env D) (b : B)
      → ((m >>= f) w).0 ≡ ok b
      → (a : A) × ((m w).0 ≡ ok a) × ((f a (m w).1).0 ≡ ok b)
  bind-ok m f w b h = continue-ok (m w).0 f (m w).1 b h

  abbrev pub ◌>>◌ : {B : Type 0} → Io D (Unit {0}) → Io D B → Io D B
  m >> k = m >>= λ _. k

  abbrev pub on_outcome :
      Outcome → (D → D) → (Option Bytes → D → D) → Env D → IoResult (Unit {0}) × Env D
  on_outcome done good bad w =
      (ok tt, record { disk = good w.disk; pending = rest_outcomes w.pending })
  on_outcome (fails left) good bad w =
      (err os, record { disk = bad left w.disk; pending = rest_outcomes w.pending })

  -- An operation that changes the disk: what it does if it succeeds, and what a failure leaves.
  abbrev pub attempt : (D → D) → (Option Bytes → D → D) → Io D (Unit {0})
  attempt good bad w = on_outcome (next_outcome w.pending) good bad w

  -- An operation that reads the disk.
  abbrev pub observe : {A : Type 0} → (D → A) → Io D A
  observe f w =
      (on_read (next_outcome w.pending) (f w.disk), record w { pending = rest_outcomes w.pending })

-- A disk on which every operation succeeds.
abbrev pub calm : {D : Type 0} → D → Env D
calm d = record { disk = d; pending = [] }
