-- ===== src/Fsm.antt =====
-- crates/multiraft-fsm/src/lib.rs: the trait that an application implements, and the laws under
-- which one replica may take over from another's snapshot.
pub mod Counter
pub mod Tests
use bf_multiraft.Base.{ℕ, ◌≡◌, Bytes}

pub data Result {ℓ} (E A : Type ℓ) : Type ℓ where
  ok : A → Result E A
  err : E → Result E A

-- The effects of an `apply`.
pub record ApplyOut : Type 0 where
  pub effects : Bytes

-- A call on `&mut self` gives its result and the state that it leaves, also when it fails.
pub record StateMachine : Type 1 where
  pub State : Type 0
  pub Error : Type 0
  pub apply : ℕ → ℕ → Bytes → State → Result Error ApplyOut × State
  pub snapshot : ℕ → State → Result Error Bytes
  pub restore : ℕ → Bytes → State → Result Error (Unit {0}) × State
  pub freeze_for_snapshot : ℕ → State → Result Error Bytes

-- What replication needs of a state machine. `Same g s t`: the group `g` is alike in `s` and `t`.
pub record Restorable (M : StateMachine) : Type 1 where
  pub Same : ℕ → M.State → M.State → Type 0
  -- A state restored from frozen bytes is alike to the state that was frozen.
  pub Same-restore :
      (g : ℕ) (s t : M.State) (b : Bytes)
      → M.freeze_for_snapshot g s ≡ ok b
      → ((M.restore g b t).0 ≡ ok tt) × Same g s (M.restore g b t).1
  -- States that are alike answer alike and stay alike.
  pub Same-apply :
      (g i : ℕ) (command : Bytes) (s t : M.State)
      → Same g s t
      → ((M.apply g i command s).0 ≡ (M.apply g i command t).0)
        × Same g (M.apply g i command s).1 (M.apply g i command t).1
