-- ===== src/Catalog/Apart.antt =====
-- Lists whose elements are pairwise apart, by a symmetric relation.
use bf_multiraft.Base.{ℕ, zero, suc, Bool, Bool-cases, inl, inr, List, [], ◌∷◌, All, take, drop}
use bf_multiraft.Catalog.Order.{
  insert_by, insert_by-All, sort_by, sort_by-All, All-any, All-zip, All-drop,
}

module _ {A : Type 0} (R : A → A → Type 0) where
  abbrev pub Apart : List A → Type 0
  Apart [] = Unit
  Apart (x ∷ xs) = All (R x) xs × Apart xs

  module _ (flip : (a b : A) → R a b → R b a) where
    insert_by-Apart :
        (le : A → A → Bool) (x : A) (ys : List A)
        → All (R x) ys
        → Apart ys
        → Apart (insert_by le x ys)
    unfolding insert_by
    insert_by-Apart le x [] h k = (tt, tt)
    insert_by-Apart le x (y ∷ ys) h k = elim (Bool-cases (le x y)) [
      | inl e ↦ rw e (h, k)
      | inr e ↦
          rw e (insert_by-All (R y) le x ys (flip x y h.0) k.0, insert_by-Apart le x ys h.1 k.1)
    ]

    pub sort_by-Apart : (le : A → A → Bool) (xs : List A) → Apart xs → Apart (sort_by le xs)
    unfolding sort_by
    sort_by-Apart le [] h = tt
    sort_by-Apart le (x ∷ xs) h =
        insert_by-Apart le x (sort_by le xs) (sort_by-All (R x) le xs h.0) (sort_by-Apart le xs h.1)

    -- What comes after the first `k` elements is apart from them.
    pub take-drop : (k : ℕ) (xs : List A) → Apart xs → All (λ c. All (R c) (take k xs)) (drop k xs)
    take-drop zero xs h = All-any xs (λ a. tt)
    take-drop (suc k) [] h = tt
    take-drop (suc k) (x ∷ xs) h =
        All-zip (drop k xs) (λ a q r. (flip x a q, r)) (All-drop (R x) k xs h.0)
          (take-drop k xs h.1)
