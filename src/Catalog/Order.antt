-- ===== src/Catalog/Order.antt =====
-- `slice::sort_by`, which is stable, with what its result contains and how it is ordered, and
-- removal by a test.
use bf_multiraft.Base.{
  ℕ, zero, suc, ◌-◌, ◌≡◌, refl, Bool, true, false, Bool-cases, inl, inr, List, [], ◌∷◌, arith,
  if◌then◌else◌, subst, sym, ◌⊎◌, length, retain, All, take, drop, not,
}

module _ {A : Type 0} where
  unfoldable pub without : (A → Bool) → List A → List A
  without test = retain (λ a. not (test a))

  unfoldable pub insert_by : (A → A → Bool) → A → List A → List A
  insert_by le x [] = x ∷ []
  insert_by le x (y ∷ ys) = let rest = insert_by le x ys in if le x y then x ∷ y ∷ ys else y ∷ rest

  -- An element comes before the equal ones that follow it.
  unfoldable pub sort_by : (A → A → Bool) → List A → List A
  sort_by le [] = []
  sort_by le (x ∷ xs) = insert_by le x (sort_by le xs)

  pub insert_by-All :
      (P : A → Type 0) (le : A → A → Bool) (x : A) (ys : List A)
      → P x
      → All P ys
      → All P (insert_by le x ys)
  unfolding insert_by
  insert_by-All P le x [] h k = (h, tt)
  insert_by-All P le x (y ∷ ys) h k = elim (Bool-cases (le x y)) [
    | inl e ↦ rw e (h, k)
    | inr e ↦ rw e (k.0, insert_by-All P le x ys h k.1)
  ]

  -- What holds of all elements holds of all elements of the sorted list.
  pub sort_by-All :
      (P : A → Type 0) (le : A → A → Bool) (xs : List A) → All P xs → All P (sort_by le xs)
  unfolding sort_by
  sort_by-All P le [] h = tt
  sort_by-All P le (x ∷ xs) h = insert_by-All P le x (sort_by le xs) h.0 (sort_by-All P le xs h.1)

  insert_by-All_inv :
      (P : A → Type 0) (le : A → A → Bool) (x : A) (ys : List A)
      → All P (insert_by le x ys)
      → P x × All P ys
  unfolding insert_by
  insert_by-All_inv P le x [] h = h
  insert_by-All_inv P le x (y ∷ ys) h = elim (Bool-cases (le x y)) [
    | inl e ↦
        subst (λ b. All P (if b then x ∷ y ∷ ys else y ∷ insert_by le x ys) → P x × All P (y ∷ ys))
          (sym e) (λ k. k) h
    | inr e ↦
        subst (λ b. All P (if b then x ∷ y ∷ ys else y ∷ insert_by le x ys) → P x × All P (y ∷ ys))
          (sym e) (λ k. let (px, pys) = insert_by-All_inv P le x ys k.1 in (px, (k.0, pys))) h
  ]

  pub sort_by-All_inv :
      (P : A → Type 0) (le : A → A → Bool) (xs : List A) → All P (sort_by le xs) → All P xs
  unfolding sort_by
  sort_by-All_inv P le [] h = tt
  sort_by-All_inv P le (x ∷ xs) h =
      let (px, rest) = insert_by-All_inv P le x (sort_by le xs) h in
      (px, sort_by-All_inv P le xs rest)

  abbrev pub Member : A → List A → Type 0
  Member a [] = ⊥
  Member a (x ∷ xs) = (a ≡ x) ⊎ Member a xs

  pub All-impl : {P Q : A → Type 0} (xs : List A) → ((a : A) → P a → Q a) → All P xs → All Q xs
  All-impl [] f h = tt
  All-impl (x ∷ xs) f h = (f x h.0, All-impl xs f h.1)

  pub All-any : {P : A → Type 0} (xs : List A) → ((a : A) → P a) → All P xs
  All-any [] f = tt
  All-any (x ∷ xs) f = (f x, All-any xs f)

  pub All-zip :
      {P Q R : A → Type 0} (xs : List A)
      → ((a : A) → P a → Q a → R a)
      → All P xs
      → All Q xs
      → All R xs
  All-zip [] f h k = tt
  All-zip (x ∷ xs) f h k = (f x h.0 k.0, All-zip xs f h.1 k.1)

  -- What passes the test has the property.
  pub All-retain :
      (P : A → Type 0) (p : A → Bool) (xs : List A)
      → All (λ a. p a ≡ true → P a) xs
      → All P (retain p xs)
  unfolding retain
  All-retain P p [] h = tt
  All-retain P p (x ∷ xs) h = elim (Bool-cases (p x)) [
    | inl e ↦ rw e (h.0 e, All-retain P p xs h.1)
    | inr e ↦ rw e (All-retain P p xs h.1)
  ]

  pub All-Member : (xs : List A) → All (λ a. Member a xs) xs
  All-Member [] = tt
  All-Member (x ∷ xs) = (inl refl, All-impl xs (λ a m. inr m) (All-Member xs))

  abbrev pub IsSorted : (A → A → Bool) → List A → Type 0
  IsSorted le [] = Unit
  IsSorted le (x ∷ xs) = All (λ y. le x y ≡ true) xs × IsSorted le xs

  -- A total preorder.
  pub record IsTotal (le : A → A → Bool) : Type 0 where
    pub total : (a b : A) → le a b ≡ false → le b a ≡ true
    pub trans : (a b c : A) → le a b ≡ true → le b c ≡ true → le a c ≡ true

  module _ (le : A → A → Bool) (t : IsTotal le) where
    insert_by-IsSorted : (x : A) (ys : List A) → IsSorted le ys → IsSorted le (insert_by le x ys)
    unfolding insert_by
    insert_by-IsSorted x [] h = (tt, tt)
    insert_by-IsSorted x (y ∷ ys) h = elim (Bool-cases (le x y)) [
      | inl e ↦ rw e ((e, All-impl ys (λ a q. t.trans x y a e q) h.0), h)
      | inr e ↦ rw e (
        insert_by-All (λ a. le y a ≡ true) le x ys (t.total x y e) h.0,
        insert_by-IsSorted x ys h.1,
      )
    ]

    pub sort_by-IsSorted : (xs : List A) → IsSorted le (sort_by le xs)
    unfolding sort_by
    sort_by-IsSorted [] = tt
    sort_by-IsSorted (x ∷ xs) = insert_by-IsSorted x (sort_by le xs) (sort_by-IsSorted xs)

    later :
        (x a : A) (xs : List A)
        → le x a ≡ true
        → Member a xs ⊎ All (λ r. le r a ≡ true) xs
        → Member a (x ∷ xs) ⊎ All (λ r. le r a ≡ true) (x ∷ xs)
    later x a xs h (inl m) = inl (inr m)
    later x a xs h (inr q) = inr (h, q)

    -- Each element is among the first `k`, or each of those comes before it.
    pub take-IsSorted :
        (k : ℕ) (xs : List A)
        → IsSorted le xs
        → All (λ a. Member a (take k xs) ⊎ All (λ r. le r a ≡ true) (take k xs)) xs
    take-IsSorted zero xs h = All-any xs (λ a. inr tt)
    take-IsSorted (suc k) [] h = tt
    take-IsSorted (suc k) (x ∷ xs) h = (
      inl (inl refl),
      All-zip xs (λ a q r. later x a (take k xs) q r) h.0 (take-IsSorted k xs h.1),
    )

  insert_by-length :
      (p : A → Bool) (le : A → A → Bool) (x : A) (ys : List A)
      → length (retain p (insert_by le x ys)) ≡ length (retain p (x ∷ ys))
  unfolding insert_by retain
  insert_by-length p le x [] = refl
  insert_by-length p le x (y ∷ ys) = ground (arith, insert_by-length p le x ys)

  pub sort_by-length :
      (p : A → Bool) (le : A → A → Bool) (xs : List A)
      → length (retain p (sort_by le xs)) ≡ length (retain p xs)
  unfolding sort_by retain
  sort_by-length p le [] = refl
  sort_by-length p le (x ∷ xs) =
      ground (arith, insert_by-length p le x (sort_by le xs), sort_by-length p le xs)

  insert_by-length_all :
      (le : A → A → Bool) (x : A) (ys : List A) → length (insert_by le x ys) ≡ suc (length ys)
  unfolding insert_by
  insert_by-length_all le x [] = refl
  insert_by-length_all le x (y ∷ ys) = ground (arith, insert_by-length_all le x ys)

  pub length-sort_by : (le : A → A → Bool) (xs : List A) → length (sort_by le xs) ≡ length xs
  unfolding sort_by
  length-sort_by le [] = refl
  length-sort_by le (x ∷ xs) =
      omega (arith, insert_by-length_all le x (sort_by le xs), length-sort_by le xs)

  pub All-take : (P : A → Type 0) (n : ℕ) (xs : List A) → All P xs → All P (take n xs)
  All-take P zero xs h = tt
  All-take P (suc n) [] h = tt
  All-take P (suc n) (x ∷ xs) h = (h.0, All-take P n xs h.1)

  pub All-drop : (P : A → Type 0) (n : ℕ) (xs : List A) → All P xs → All P (drop n xs)
  All-drop P zero xs h = h
  All-drop P (suc n) [] h = tt
  All-drop P (suc n) (x ∷ xs) h = All-drop P n xs h.1

  -- A list of which the first `k` elements fail the test, and all others pass it.
  pub take-length_eq :
      (p : A → Bool) (k : ℕ) (xs : List A)
      → All (λ a. p a ≡ false) (take k xs)
      → All (λ a. p a ≡ true) (drop k xs)
      → length (retain p xs) ≡ length xs - k
  unfolding retain
  take-length_eq p zero [] h l = refl
  take-length_eq p zero (x ∷ xs) h l = ground (arith, take-length_eq p zero xs tt l.1, l.0)
  take-length_eq p (suc k) [] h l = omega arith
  take-length_eq p (suc k) (x ∷ xs) h l = ground (arith, take-length_eq p k xs h.1 l, h.0)
