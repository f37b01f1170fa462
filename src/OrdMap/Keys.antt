-- ===== src/OrdMap/Keys.antt =====
-- Maps compared by their keys.
use bf_multiraft.Base.{
  ℕ, suc, ◌≤◌, ◌<◌, ◌≡◌, refl, ap, true, false, Bool-cases, inl, inr, some, [], ◌∷◌, arith, length,
  ◌==◌, ◌||◌, ltb, if◌then◌else◌,
}
use bf_multiraft.OrdMap.{OrdMap, lookup, contains_key, insert, remove}
use bf_multiraft.OrdMap.Order.{Above, Above-weaken}

module _ {ℓ} {V : Type ℓ} where
  pub contains_key-insert :
      (key at : ℕ) (v : V) (m : OrdMap V)
      → contains_key at (insert key v m) ≡ ((key == at) || contains_key at m)
  unfolding contains_key insert
  contains_key-insert key at v [] = ground arith
  contains_key-insert key at v ((first, old) ∷ m) = ground (arith, contains_key-insert key at v m)

  contains_key-under : (n k : ℕ) (m : OrdMap V) → Above n m → k < n → contains_key k m ≡ false
  unfolding contains_key
  contains_key-under n k [] h lt = refl
  contains_key-under n k ((at, old) ∷ m) (le, h) lt =
      ground (arith, contains_key-under (suc at) k m h (omega arith))

  contains_key-tail :
      (at k : ℕ) (v : V) (m : OrdMap V)
      → at < k
      → contains_key k ((at, v) ∷ m) ≡ true
      → contains_key k m ≡ true
  unfolding contains_key
  contains_key-tail at k v m lt h = ground arith

  pub contains_key-remove :
      (key at : ℕ) (m : OrdMap V)
      → contains_key at (remove key m) ≡ (if key == at then false else contains_key at m)
  unfolding contains_key remove
  contains_key-remove key at [] = ground arith
  contains_key-remove key at ((first, old) ∷ m) = ground (arith, contains_key-remove key at m)

  -- A write to a key that is there replaces its entry.
  pub length-insert :
      (key : ℕ) (v : V) (n : ℕ) (m : OrdMap V)
      → Above n m
      → contains_key key m ≡ true
      → length (insert key v m) ≡ length m
  unfolding insert
  length-insert key v n [] h c = let x = contains_key-under (suc key) key [] tt (omega arith) in cc
  length-insert key v n ((at, old) ∷ m) (le, h) c = elim (Bool-cases (key == at)) [
    | inl e ↦ rw e refl
    | inr e ↦ elim (Bool-cases (ltb key at)) [
      | inl lt ↦
          let x = contains_key-under at key ((at, old) ∷ m) (omega arith, h) (ground arith) in cc
      | inr ge ↦
          rw (e, ge)
            (ap suc
              (length-insert key v (suc at) m h (contains_key-tail at key old m (ground arith) c)))
    ]
  ]

  pub contains_key-found :
      (key : ℕ) (v : V) (m : OrdMap V) → lookup key m ≡ some v → contains_key key m ≡ true
  unfolding contains_key lookup
  contains_key-found key v [] h = cc
  contains_key-found key v ((at, old) ∷ m) h = ground (arith, contains_key-found key v m)

  key_bound : (n k : ℕ) (m : OrdMap V) → Above n m → contains_key k m ≡ true → n ≤ k
  key_bound n k m h c = elim (Bool-cases (ltb k n)) [
    | inl lt ↦ let y = contains_key-under n k m h (ground arith) in ground arith
    | inr ge ↦ ground arith
  ]

  head-key : (k : ℕ) (v : V) (m : OrdMap V) → contains_key k ((k, v) ∷ m) ≡ true
  unfolding contains_key
  head-key k v m = ground arith

  more-keys :
      (k i : ℕ) (v : V) (m : OrdMap V)
      → contains_key i m ≡ true
      → contains_key i ((k, v) ∷ m) ≡ true
  unfolding contains_key
  more-keys k i v m h = ground arith

module _ {ℓ κ} {V : Type ℓ} {W : Type κ} where
  -- A map whose keys another has too is not longer.
  pub length-keys :
      (n : ℕ) (a : OrdMap V) (b : OrdMap W)
      → Above n a
      → Above n b
      → ((k : ℕ) → contains_key k a ≡ true → contains_key k b ≡ true)
      → length a ≤ length b
  length-keys n [] b ha hb sub = omega arith
  length-keys n ((k, v) ∷ a) [] ha hb sub =
      let x = sub k (head-key k v a) in
      let y = contains_key-under {V = W} (suc k) k [] tt (omega arith) in ground arith
  length-keys n ((k, v) ∷ a) ((j, w) ∷ b) ha hb sub = elim (Bool-cases (ltb k j)) [
    | inl lt ↦
        let x = sub k (head-key k v a) in
        let y = contains_key-under j k ((j, w) ∷ b) (omega arith, hb.1) (ground arith) in
        ground arith
    | inr ge ↦ elim (Bool-cases (k == j)) [
      | inl e ↦
          let same : k ≡ j = ground arith in
          omega (
            arith,
            length-keys (suc k) a b ha.1 (Above-weaken b (omega arith) hb.1) (λ i h.
                let lt = key_bound (suc k) i a ha.1 h in
                contains_key-tail j i w b (omega arith) (sub i (more-keys k i v a h))),
          )
      | inr ne ↦
          let lt : j < k = ground arith in
          omega (
            arith,
            length-keys n ((k, v) ∷ a) b ha (Above-weaken b (omega arith) hb.1) (λ i h.
                let le = key_bound k i ((k, v) ∷ a) (omega arith, ha.1) h in
                contains_key-tail j i w b (omega arith) (sub i h)),
          )
    ]
  ]
