-- ===== src/Facade/Sets.antt =====
-- The laws of `HashSet::insert` on a set that is a list without its order.
use bf_multiraft.Base.{
  ℕ, ◌≡◌, refl, true, Bool-cases, inl, inr, List, [], ◌∷◌, arith, contains, All,
}
use bf_multiraft.Facade.{add, all_in}

pub contains-head : (k : ℕ) (set : List ℕ) → contains (k ∷ set) k ≡ true
unfolding contains
contains-head k set = ground arith

contains-cons : (k g : ℕ) (set : List ℕ) → contains set g ≡ true → contains (k ∷ set) g ≡ true
unfolding contains
contains-cons k g set h = ground arith

pub contains-add : (k : ℕ) (set : List ℕ) → contains (add k set) k ≡ true
contains-add k set = elim (Bool-cases (contains set k)) [
  | inl e ↦ rw e e
  | inr e ↦ rw e (contains-head k set)
]

pub kept-add :
    (k : ℕ) (set : List ℕ) (g : ℕ) → contains set g ≡ true → contains (add k set) g ≡ true
kept-add k set g h = elim (Bool-cases (contains set k)) [
  | inl e ↦ rw e h
  | inr e ↦ rw e (contains-cons k g set h)
]

pub all_in-All :
    (members set : List ℕ) → All (λ m. contains set m ≡ true) members → all_in members set ≡ true
unfolding all_in
all_in-All [] set h = refl
all_in-All (m ∷ members) set (h, hs) = rw h (all_in-All members set hs)
