-- ===== src/OrdMap/Order.antt =====
-- Maps with their keys in ascending order, as every `BTreeMap` is.
use bf_multiraft.Base.{ℕ, suc, ◌≤◌, ◌<◌, ◌≡◌, refl, Bool, none, [], ◌∷◌, arith}
use bf_multiraft.OrdMap.{OrdMap, lookup, insert, select}

module _ {ℓ} {V : Type ℓ} where
  -- The keys ascend strictly and none is under the bound.
  abbrev pub Above : ℕ → OrdMap V → Type 0
  Above n [] = Unit
  Above n ((k, v) ∷ m) = (n ≤ k) × Above (suc k) m

  pub Above-weaken : {n n' : ℕ} (m : OrdMap V) → n' ≤ n → Above n m → Above n' m
  Above-weaken [] h a = tt
  Above-weaken ((k, v) ∷ m) h a = (omega arith, a.1)

  pub insert-Above : (n k : ℕ) (v : V) (m : OrdMap V) → n ≤ k → Above n m → Above n (insert k v m)
  unfolding insert
  insert-Above n k v [] h a = (h, tt)
  insert-Above n k v ((j, w) ∷ m) h a = ground (arith, insert-Above (suc j) k v m)

  pub select-Above : (n : ℕ) (p : ℕ → Bool) (m : OrdMap V) → Above n m → Above n (select p m)
  unfolding select
  select-Above n p [] a = tt
  select-Above n p ((j, w) ∷ m) a =
      ground (arith, select-Above (suc j) p m, Above-weaken {n = suc j} {n' = n} (select p m))

  -- A key under the bound is absent.
  pub lookup-under : (n k : ℕ) (m : OrdMap V) → Above n m → k < n → lookup k m ≡ none
  unfolding lookup
  lookup-under n k [] a h = refl
  lookup-under n k ((j, w) ∷ m) a h = ground (arith, lookup-under (suc j) k m)
