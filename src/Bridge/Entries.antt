-- ===== src/Bridge/Entries.antt =====
-- What a stream of committed entries asks for, told apart from the loop that applies it.
use bf_multiraft.Base.{ℕ, ◌≡◌, Bool, Option, some, List, [], ◌∷◌, ◌++◌, Bytes, if◌then◌else◌}
use bf_multiraft.Io.{ok, err}
use bf_multiraft.Fsm.{Result, ApplyOut, StateMachine}
use bf_multiraft.Fsm
use bf_multiraft.Core.{Response, is_standby_snapshot_trigger}
use bf_multiraft.Bridge.{
  SmTypes, EntryPayload, blank, normal, membership, Item, StateMachineStoreInner, Applied, Trigger,
}

module _ (T : SmTypes) (M : StateMachine) where
  -- The commands for the state machine among the entries, each under its log id: not the triggers.
  abbrev pub command_of : T.LogId → EntryPayload T → List (T.LogId × Bytes)
  command_of id blank = []
  command_of id (membership mem) = []
  command_of id (normal req) =
      if is_standby_snapshot_trigger req.payload then [] else (id, req.payload) ∷ []

  unfoldable pub commands : List (Item T) → List (T.LogId × Bytes)
  commands [] = []
  commands (err e ∷ items) = []
  commands (ok (entry, _) ∷ items) = command_of entry.log_id entry.payload ++ commands items

  unfoldable pub run_commands : ℕ → List (T.LogId × Bytes) → M.State → M.State
  run_commands group [] fsm = fsm
  run_commands group ((id, command) ∷ cs) fsm =
      run_commands group cs (M.apply group (T.index id) command fsm).1

  -- The calls that the triggers among the entries ask for.
  abbrev pub trigger_of : ℕ → T.LogId → EntryPayload T → List (Trigger T)
  trigger_of group id blank = []
  trigger_of group id (membership mem) = []
  trigger_of group id (normal req) =
      if is_standby_snapshot_trigger req.payload then (group, T.index id, T.term id) ∷ [] else []

  unfoldable pub asked : ℕ → List (Item T) → List (Trigger T)
  asked group [] = []
  asked group (err e ∷ items) = []
  asked group (ok (entry, _) ∷ items) =
      trigger_of group entry.log_id entry.payload ++ asked group items

  unfoldable pub last_log_id : Option T.LogId → List (Item T) → Option T.LogId
  last_log_id before [] = before
  last_log_id before (err e ∷ items) = before
  last_log_id before (ok (entry, _) ∷ items) = last_log_id (some entry.log_id) items

  -- The membership of the last entry that has one, under the log id of that entry.
  abbrev pub membership_of : T.LogId → EntryPayload T → T.StoredMembership → T.StoredMembership
  membership_of id blank mem = mem
  membership_of id (normal req) mem = mem
  membership_of id (membership new) mem = T.new_membership (some id) new

  unfoldable pub memberships : List (Item T) → T.StoredMembership → T.StoredMembership
  memberships [] mem = mem
  memberships (err e ∷ items) mem = mem
  memberships (ok (entry, _) ∷ items) mem =
      memberships items (membership_of entry.log_id entry.payload mem)

  -- What the state machine answers to a command, as a response; all other entries have no effects.
  abbrev pub answer_of : Result M.Error ApplyOut → Response
  answer_of (Fsm.ok out) = record { effects = out.effects }
  answer_of (Fsm.err e) = record { effects = [] }

  abbrev pub reply : ℕ → T.LogId → EntryPayload T → M.State → Response
  reply group id blank fsm = record { effects = [] }
  reply group id (membership mem) fsm = record { effects = [] }
  reply group id (normal req) fsm =
      if is_standby_snapshot_trigger req.payload
      then record { effects = [] }
      else answer_of (M.apply group (T.index id) req.payload fsm).0

  -- The responses that the callers await, each from the state that its entry found.
  unfoldable pub replies : ℕ → List (Item T) → M.State → List Response
  replies group [] fsm = []
  replies group (err e ∷ items) fsm = []
  replies group (ok (entry, responder) ∷ items) fsm =
      (if responder then reply group entry.log_id entry.payload fsm ∷ [] else [])
      ++ replies group items (run_commands group (command_of entry.log_id entry.payload) fsm)

  pub record Effects (has_trigger : Bool) (items : List (Item T)) (s : StateMachineStoreInner T M)
      (a : Applied T M) : Type 0 where
    pub group_eq : a.inner.group_id ≡ s.group_id
    pub fsm_eq : a.inner.fsm ≡ run_commands s.group_id (commands items) s.fsm
    pub applied_eq : a.inner.last_applied_log ≡ last_log_id s.last_applied_log items
    pub membership_eq : a.inner.last_membership ≡ memberships items s.last_membership
    pub snapshot_eq : a.inner.current_snapshot ≡ s.current_snapshot
    pub snapshot_idx_eq : a.inner.snapshot_idx ≡ s.snapshot_idx
    pub sent_eq : a.sent ≡ replies s.group_id items s.fsm
    pub triggers_eq : a.triggers ≡ (if has_trigger then asked s.group_id items else [])
