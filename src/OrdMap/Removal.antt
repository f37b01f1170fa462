-- ===== src/OrdMap/Removal.antt =====
-- Removing keys one by one, as `truncate_after` and `purge` do, is one selection.
use bf_multiraft.Base.{
  ℕ, ◌≡◌, refl, Bool, true, List, [], ◌∷◌, arith, ◌==◌, ◌&&◌, not, contains, ◌∙◌,
}
use bf_multiraft.OrdMap.{OrdMap, remove, remove_all, select, keys}

module _ {ℓ} {V : Type ℓ} where
  remove-eq-select : (k : ℕ) (m : OrdMap V) → remove k m ≡ select (λ j. not (k == j)) m
  unfolding remove select
  remove-eq-select k [] = refl
  remove-eq-select k ((j, v) ∷ m) = ground (arith, remove-eq-select k m)

  select-select :
      (p q : ℕ → Bool) (m : OrdMap V) → select p (select q m) ≡ select (λ j. q j && p j) m
  unfolding select
  select-select p q [] = refl
  select-select p q ((j, v) ∷ m) = ground (arith, select-select p q m)

  -- Two tests that agree on the keys present select alike.
  select_congr :
      (p q : ℕ → Bool) (m : OrdMap V)
      → ((j : ℕ) → contains (keys m) j ≡ true → p j ≡ q j)
      → select p m ≡ select q m
  unfolding select contains
  select_congr p q [] h = refl
  select_congr p q ((j, v) ∷ m) h =
      ground (arith, select_congr p q m (λ i e. h i (ground arith)), h j)

  select_all : (m : OrdMap V) → m ≡ select (λ _. true) m
  unfolding select
  select_all [] = refl
  select_all ((j, v) ∷ m) = ground (arith, select_all m)

  remove_all-eq-select :
      (ks : List ℕ) (m : OrdMap V) → remove_all ks m ≡ select (λ j. not (contains ks j)) m
  unfolding remove_all select contains
  remove_all-eq-select [] m = select_all m
  remove_all-eq-select (k ∷ ks) m =
      rw (remove-eq-select k m, remove_all-eq-select ks, select-select)
        (select_congr _ _ m (λ j e. ground arith))

  contains-keys-select :
      (p : ℕ → Bool) (m : OrdMap V) (j : ℕ)
      → contains (keys (select p m)) j ≡ (p j && contains (keys m) j)
  unfolding select contains
  contains-keys-select p [] j = ground arith
  contains-keys-select p ((i, v) ∷ m) j = ground (arith, contains-keys-select p m j)

  -- The loop over the keys that pass a test leaves the entries that fail it.
  pub remove_all-select :
      (p : ℕ → Bool) (m : OrdMap V) → remove_all (keys (select p m)) m ≡ select (λ j. not (p j)) m
  remove_all-select p m =
      remove_all-eq-select (keys (select p m)) m
      ∙ select_congr _ _ m (λ j e. ground (arith, contains-keys-select p m j))
