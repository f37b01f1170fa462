-- ===== src/Facade/Leaders/Watch.antt =====
-- The watch reports each change once, and the current leader in the end.
use bf_multiraft.Base.{
  ℕ, ◌≡◌, refl, true, false, Bool-cases, inl, inr, Option, none, some, List, [], ◌∷◌, map, arith,
}
use bf_multiraft.Facade.Leaders.{same_leader, is_last, Seen, watch}

-- No leader is followed by itself, from the last one reported on.
abbrev pub NoRepeat : Option (Option ℕ) → List (Option ℕ) → Type 0
NoRepeat last [] = Unit
NoRepeat last (l ∷ ls) = (is_last last l ≡ false) × NoRepeat (some l) ls

abbrev pub leaders : List Seen → List (Option ℕ)
leaders = map (λ s. s.0)

-- The leader that stands at the end.
abbrev pub final : Option (Option ℕ) → List (Option ℕ) → Option (Option ℕ)
final last [] = last
final last (l ∷ ls) = final (some l) ls

same_leader_eq : (a b : Option ℕ) → same_leader a b ≡ true → a ≡ b
same_leader_eq none none h = refl
same_leader_eq none (some b) h = cc
same_leader_eq (some a) none h = cc
same_leader_eq (some a) (some b) h = ground arith

is_last_eq : (last : Option (Option ℕ)) (cur : Option ℕ) → is_last last cur ≡ true → last ≡ some cur
is_last_eq none cur h = cc
is_last_eq (some l) cur h = let q = same_leader_eq l cur h in cc

-- The watch never reports the same leader twice in a row, and after it has seen the metrics the
-- last leader that it reported is the one that they show.
pub watch-NoRepeat :
    (last : Option (Option ℕ)) (seen : List Seen)
    → NoRepeat last (leaders (watch last seen))
      × (final last (leaders (watch last seen)) ≡ final last (leaders seen))
unfolding watch
watch-NoRepeat last [] = (tt, refl)
watch-NoRepeat last ((cur, cbs) ∷ seen) =
    let (h, f) = watch-NoRepeat (some cur) seen in
    elim (Bool-cases (is_last last cur)) [
      | inl b ↦ let q = is_last_eq last cur b in rw (b) (rw q (h, f))
      | inr b ↦ rw b ((b, h), f)
    ]
