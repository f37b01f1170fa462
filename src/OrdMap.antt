-- ===== src/OrdMap.antt =====
-- The maps of the source. A `BTreeMap<u64, V>` is its entries in ascending order of the keys; a
-- `HashMap<u64, V>` that is only read and written by key is the same list.
pub mod Order
pub mod Removal
pub mod Keys
use bf_multiraft.Base.{
  ℕ, zero, suc, ◌≤◌, ◌≡◌, refl, Bool, true, false, Option, none, some, List, [], ◌∷◌, map, arith,
  ltb, leb, ◌==◌, ◌&&◌, if◌then◌else◌, not,
}

abbrev pub OrdMap {ℓ} : Type ℓ → Type ℓ
OrdMap V = List (ℕ × V)

-- An end of a range of keys.
pub data Bound : Type 0 where
  unbounded : Bound
  included excluded : ℕ → Bound

-- Whether a key lies above a lower bound, and below an upper bound.
abbrev pub from_bound : Bound → ℕ → Bool
from_bound unbounded k = true
from_bound (included b) k = leb b k
from_bound (excluded b) k = ltb b k

abbrev pub to_bound : Bound → ℕ → Bool
to_bound unbounded k = true
to_bound (included b) k = leb k b
to_bound (excluded b) k = ltb k b

-- `BTreeMap::range` panics on a range whose start lies past its end, and on an empty range between
-- two excluded ends.
unfoldable pub range_panics : Bound → Bound → Bool
range_panics (included a) (included b) = ltb b a
range_panics (included a) (excluded b) = ltb b a
range_panics (excluded a) (included b) = ltb b a
range_panics (excluded a) (excluded b) = leb b a
range_panics _ _ = false

module _ {ℓ} {V : Type ℓ} where
  unfoldable pub lookup : ℕ → OrdMap V → Option V
  lookup key [] = none
  lookup key ((at, v) ∷ entries) = if at == key then some v else lookup key entries

  unfoldable pub contains_key : ℕ → OrdMap V → Bool
  contains_key key [] = false
  contains_key key ((at, v) ∷ entries) = if at == key then true else contains_key key entries

  unfoldable pub insert : ℕ → V → OrdMap V → OrdMap V
  insert key v [] = (key, v) ∷ []
  insert key v ((at, old) ∷ entries) =
      if key == at
      then (key, v) ∷ entries
      else let kept = (at, old) ∷ entries in
        if ltb key at then (key, v) ∷ kept else (at, old) ∷ insert key v entries

  unfoldable pub remove : ℕ → OrdMap V → OrdMap V
  remove key [] = []
  remove key ((at, old) ∷ entries) =
      let rest = remove key entries in if at == key then rest else (at, old) ∷ rest

  -- The loop `for key in keys { map.remove(&key); }`.
  unfoldable pub remove_all : List ℕ → OrdMap V → OrdMap V
  remove_all [] entries = entries
  remove_all (key ∷ ks) entries = remove_all ks (remove key entries)

  -- The entries whose keys pass a test, in order.
  unfoldable pub select : (ℕ → Bool) → OrdMap V → OrdMap V
  select p [] = []
  select p ((at, old) ∷ entries) =
      let rest = select p entries in if p at then (at, old) ∷ rest else rest

  -- `BTreeMap::range`.
  unfoldable pub range : Bound → Bound → OrdMap V → OrdMap V
  range lo hi = select (λ key. from_bound lo key && to_bound hi key)

  abbrev pub keys : OrdMap V → List ℕ
  keys = map (λ e. e.0)

  abbrev pub values : OrdMap V → List V
  values = map (λ e. e.1)

  -- The law of a write, read at any key.
  pub lookup-insert :
      (key at : ℕ) (v : V) (entries : OrdMap V)
      → lookup at (insert key v entries) ≡ (if key == at then some v else lookup at entries)
  unfolding lookup insert
  lookup-insert key at v [] = refl
  lookup-insert key at v ((first, old) ∷ entries) = ground (arith, lookup-insert key at v entries)

  pub lookup-remove :
      (key at : ℕ) (entries : OrdMap V)
      → lookup at (remove key entries) ≡ (if key == at then none else lookup at entries)
  unfolding lookup remove
  lookup-remove key at [] = ground arith
  lookup-remove key at ((first, old) ∷ entries) = ground (arith, lookup-remove key at entries)

  pub lookup-select :
      (p : ℕ → Bool) (at : ℕ) (entries : OrdMap V)
      → lookup at (select p entries) ≡ (if p at then lookup at entries else none)
  unfolding lookup select
  lookup-select p at [] = ground arith
  lookup-select p at ((first, old) ∷ entries) = ground (arith, lookup-select p at entries)

  pub contains_key-lookup :
      (key : ℕ) (entries : OrdMap V) → contains_key key entries ≡ false → lookup key entries ≡ none
  unfolding lookup contains_key
  contains_key-lookup key [] h = refl
  contains_key-lookup key ((at, v) ∷ entries) h = ground (arith, contains_key-lookup key entries)
