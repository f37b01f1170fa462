-- ===== src/Facade/Leaders.antt =====
-- crates/multiraft-net/src/multiraft.rs: the watch that reports changes of a group's leader, and
-- the wait for a leader. Times are in milliseconds.
pub mod Watch
pub mod Wait
use bf_multiraft.Base.{
  ℕ, zero, suc, ◌+◌, Bool, true, false, Option, none, some, List, [], ◌∷◌, ◌++◌, ltb, ◌==◌, ◌||◌,
  ◌&&◌, if◌then◌else◌,
}

abbrev pub same_leader : Option ℕ → Option ℕ → Bool
same_leader none none = true
same_leader none (some b) = false
same_leader (some a) none = false
same_leader (some a) (some b) = a == b

abbrev pub is_last : Option (Option ℕ) → Option ℕ → Bool
is_last none cur = false
is_last (some last) cur = same_leader last cur

-- What the watch sees: the current leader, and the callbacks that are registered then.
abbrev pub Seen : Type 0
Seen = Option ℕ × List ℕ

-- The rounds of the loop of `spawn_leader_watch`, for what the metrics show in turn: in which of
-- them it calls the callbacks. `last` is the leader that it reported last.
unfoldable pub watch : Option (Option ℕ) → List Seen → List Seen
watch last [] = []
watch last ((cur, cbs) ∷ seen) =
    let rest = watch (some cur) seen in if is_last last cur then rest else (cur, cbs) ∷ rest

-- The callbacks that are registered, and the groups for which a watch runs, once for each watch.
pub record Watchers : Type 0 where
  pub callbacks : List ℕ
  pub watched : List ℕ

-- A callback more, and one watch more for each group that runs.
unfoldable pub on_leader_change : ℕ → List ℕ → Watchers → Watchers
on_leader_change cb groups s = record {
  callbacks = s.callbacks ++ (cb ∷ []);
  watched = s.watched ++ groups;
}

-- What one node shows of a group: the leader that it knows, and whether it leads itself.
pub record View : Type 0 where
  pub leader : Option ℕ
  pub is_leader : Bool

unfoldable pub any_leads : List View → Bool
any_leads [] = false
any_leads (v ∷ views) = v.is_leader || any_leads views

unfoldable pub first_known : List View → Option ℕ
first_known [] = none
first_known (v ∷ views) = elim v.leader [ some l ↦ some l | none ↦ first_known views ]

-- The loop over the nodes, at what they show in one round.
unfoldable pub scan : List View → Option ℕ
scan views = if any_leads views then first_known views else none

-- The loop of `wait_for_leader`, from round `k`. `clock k` is what the clock gives at the start of
-- the round and `look k` what the nodes show in it; the outer `none` means that fuel ran out.
unfoldable pub wait_for_leader : ℕ → ℕ → ℕ → (ℕ → ℕ) → (ℕ → List View) → Option (Option ℕ)
wait_for_leader zero k deadline clock look = none
wait_for_leader (suc fuel) k deadline clock look =
    let rest = wait_for_leader fuel (suc k) deadline clock look in
    if ltb (clock k) deadline
    then (elim (scan (look k)) [ some l ↦ some (some l) | none ↦ rest ])
    else some none
