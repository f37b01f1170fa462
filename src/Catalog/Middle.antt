-- ===== src/Catalog/Middle.antt =====
-- A new element in the middle of a list: what a sort, a removal and a search make of it.
use bf_multiraft.Base.{
  ℕ, zero, suc, ◌≤◌, ◌≡◌, refl, ap, ◌∙◌, Bool, true, false, Bool-cases, List, [], ◌∷◌, ◌++◌, inl,
  inr, arith, All, retain, length, take,
}
use bf_multiraft.Catalog.Order.{without, insert_by, sort_by, sort_by-All}

module _ {A : Type 0} where
  pub All-join : (P : A → Type 0) (xs ys : List A) → All P xs → All P ys → All P (xs ++ ys)
  All-join P [] ys h k = k
  All-join P (x ∷ xs) ys h k = (h.0, All-join P xs ys h.1 k)

  pub All-split : (P : A → Type 0) (xs ys : List A) → All P (xs ++ ys) → All P xs × All P ys
  All-split P [] ys h = (tt, h)
  All-split P (x ∷ xs) ys h = let (a, b) = All-split P xs ys h.1 in ((h.0, a), b)

  pub without-middle :
      (test : A → Bool) (xs : List A) (g : A) (ys : List A)
      → test g ≡ false
      → without test (xs ++ (g ∷ ys)) ≡ without test xs ++ (g ∷ without test ys)
  unfolding without retain
  without-middle test [] g ys h = rw h refl
  without-middle test (x ∷ xs) g ys h = elim (Bool-cases (test x)) [
    | inl e ↦ rw e (without-middle test xs g ys h)
    | inr e ↦ rw e (ap (λ zs. x ∷ zs) (without-middle test xs g ys h))
  ]

  pub All-without :
      (P : A → Type 0) (test : A → Bool) (xs : List A) → All P xs → All P (without test xs)
  unfolding without retain
  All-without P test [] h = tt
  All-without P test (x ∷ xs) h = elim (Bool-cases (test x)) [
    | inl e ↦ rw e (All-without P test xs h.1)
    | inr e ↦ rw e (h.0, All-without P test xs h.1)
  ]

  module _ (le : A → A → Bool) (g : A) where
    -- An element that comes after all others.
    insert_by-last :
        (zs : List A) → All (λ a. le g a ≡ false) zs → insert_by le g zs ≡ zs ++ (g ∷ [])
    unfolding insert_by
    insert_by-last [] h = refl
    insert_by-last (z ∷ zs) h = rw h.0 (ap (λ t. z ∷ t) (insert_by-last zs h.1))

    insert_by-before_last :
        (x : A) (zs : List A)
        → le x g ≡ true
        → insert_by le x (zs ++ (g ∷ [])) ≡ insert_by le x zs ++ (g ∷ [])
    unfolding insert_by
    insert_by-before_last x [] h = rw h refl
    insert_by-before_last x (z ∷ zs) h = elim (Bool-cases (le x z)) [
      | inl e ↦ rw e refl
      | inr e ↦ rw e (ap (λ t. z ∷ t) (insert_by-before_last x zs h))
    ]

    pub sort_by-last :
        (xs ys : List A)
        → All (λ a. (le g a ≡ false) × (le a g ≡ true)) xs
        → All (λ a. le g a ≡ false) ys
        → sort_by le (xs ++ (g ∷ ys)) ≡ sort_by le (xs ++ ys) ++ (g ∷ [])
    unfolding sort_by
    sort_by-last [] ys h k =
        insert_by-last (sort_by le ys) (sort_by-All (λ a. le g a ≡ false) le ys k)
    sort_by-last (x ∷ xs) ys h k =
        ap (insert_by le x) (sort_by-last xs ys h.1 k)
        ∙ insert_by-before_last x (sort_by le (xs ++ ys)) h.0.1

    -- An element that comes before all others.
    insert_by-first : (zs : List A) → All (λ a. le g a ≡ true) zs → insert_by le g zs ≡ g ∷ zs
    unfolding insert_by
    insert_by-first [] h = refl
    insert_by-first (z ∷ zs) h = rw h.0 refl

    insert_by-after_first :
        (x : A) (zs : List A) → le x g ≡ false → insert_by le x (g ∷ zs) ≡ g ∷ insert_by le x zs
    unfolding insert_by
    insert_by-after_first x zs h = rw h refl

    pub sort_by-first :
        (xs ys : List A)
        → All (λ a. le a g ≡ false) xs
        → All (λ a. le g a ≡ true) ys
        → sort_by le (xs ++ (g ∷ ys)) ≡ g ∷ sort_by le (xs ++ ys)
    unfolding sort_by
    sort_by-first [] ys h k =
        insert_by-first (sort_by le ys) (sort_by-All (λ a. le g a ≡ true) le ys k)
    sort_by-first (x ∷ xs) ys h k =
        ap (insert_by le x) (sort_by-first xs ys h.1 k)
        ∙ insert_by-after_first x (sort_by le (xs ++ ys)) h.0

  pub length-middle :
      (xs : List A) (g : A) (ys : List A) → length (xs ++ (g ∷ ys)) ≡ suc (length (xs ++ ys))
  length-middle [] g ys = refl
  length-middle (x ∷ xs) g ys = ap suc (length-middle xs g ys)

  pub take-before : (k : ℕ) (xs ys : List A) → k ≤ length xs → take k (xs ++ ys) ≡ take k xs
  take-before zero xs ys h = refl
  take-before (suc k) [] ys h = let f : ⊥ = omega (arith, h) in elim f [ ]
  take-before (suc k) (x ∷ xs) ys h = ap (λ t. x ∷ t) (take-before k xs ys (omega (arith, h)))
