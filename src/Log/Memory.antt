-- ===== src/Log/Memory.antt =====
-- crates/multiraft-store/src/log_mem.rs: the in-memory log store. Each method holds the lock from
-- its first line to its last, so a call is one step on `LogStoreInner`.
pub mod Contents
pub mod Invariant
pub mod Reads
pub mod Gaps
use bf_multiraft.Base.{
  ℕ, suc, ◌+◌, ◌%◌, ◌^◌, Bool, true, Option, none, some, List, [], ◌∷◌, if◌then◌else◌, last?,
}
use bf_multiraft.OrdMap.{
  OrdMap, Bound, unbounded, included, insert, remove_all, range, range_panics, keys, values,
}
use bf_multiraft.RaftTypes.{RaftTypes}

pub record LogStoreInner (C : RaftTypes) : Type 0 where
  pub last_purged_log_id : Option C.LogId
  pub log : OrdMap C.Entry
  pub committed : Option C.LogId
  pub vote : Option C.Vote

-- `openraft::LogState`.
pub record LogState (C : RaftTypes) : Type 0 where
  pub last_purged_log_id : Option C.LogId
  pub last_log_id : Option C.LogId

-- `log_id.index() + 1` on a `u64`.
abbrev pub next_index : ℕ → ℕ
next_index i = (i + 1) % 2 ^ 64

module _ (C : RaftTypes) where
  unfoldable pub default : LogStoreInner C
  default = record { last_purged_log_id = none; log = []; committed = none; vote = none }

  -- `none` is the panic of `BTreeMap::range`.
  unfoldable pub try_get_log_entries : Bound → Bound → LogStoreInner C → Option (List C.Entry)
  try_get_log_entries lo hi s =
      if range_panics lo hi then none else some (values (range lo hi s.log))

  -- The `match last { None => last_purged, Some(x) => Some(x) }`.
  abbrev pub or_purged : Option C.Entry → Option C.LogId → Option C.LogId
  or_purged none purged = purged
  or_purged (some ent) purged = some (C.log_id ent)

  unfoldable pub get_log_state : LogStoreInner C → LogState C
  get_log_state s = record {
    last_purged_log_id = s.last_purged_log_id;
    last_log_id = or_purged (last? (values s.log)) s.last_purged_log_id;
  }

  unfoldable pub save_committed : Option C.LogId → LogStoreInner C → LogStoreInner C
  save_committed committed s = record s { committed = committed }

  unfoldable pub read_committed : LogStoreInner C → Option C.LogId
  read_committed s = s.committed

  unfoldable pub save_vote : C.Vote → LogStoreInner C → LogStoreInner C
  save_vote vote s = record s { vote = some vote }

  unfoldable pub read_vote : LogStoreInner C → Option C.Vote
  read_vote s = s.vote

  -- The loop of `append`: later entries replace earlier ones at their index.
  unfoldable pub insert_entries : List C.Entry → OrdMap C.Entry → OrdMap C.Entry
  insert_entries [] log = log
  insert_entries (entry ∷ entries) log =
      insert_entries entries (insert (C.entry_index entry) entry log)

  -- The callback is always told `Ok(())`.
  unfoldable pub append : List C.Entry → LogStoreInner C → LogStoreInner C
  append entries s = record s { log = insert_entries entries s.log }

  abbrev pub start_index : Option C.LogId → ℕ
  start_index none = 0
  start_index (some log_id) = next_index (C.index log_id)

  -- The keys of a range, removed one by one.
  unfoldable pub remove_range : Bound → Bound → OrdMap C.Entry → OrdMap C.Entry
  unfolding range
  remove_range lo hi log = remove_all (keys (range lo hi log)) log

  unfoldable pub truncate_after : Option C.LogId → LogStoreInner C → LogStoreInner C
  truncate_after last_log_id s = record s {
    log = remove_range (included (start_index last_log_id)) unbounded s.log;
  }

  -- The order of `Option<&LogId>`: `None` comes first.
  abbrev pub option_le : Option C.LogId → C.LogId → Bool
  option_le none b = true
  option_le (some a) b = C.log_id_le a b

  -- `none` is the failed assertion: the purged id would go back.
  unfoldable pub purge : C.LogId → LogStoreInner C → Option (LogStoreInner C)
  purge log_id s =
      if option_le s.last_purged_log_id log_id
      then some (record s {
        last_purged_log_id = some log_id;
        log = remove_range unbounded (included (C.index log_id)) s.log;
      })
      else none

  -- One call that changes the store.
  pub data Call : Type 0 where
    saves_committed : Option C.LogId → Call
    saves_vote : C.Vote → Call
    appends : List C.Entry → Call
    truncates : Option C.LogId → Call
    purges : C.LogId → Call

  -- `none` is a panic.
  unfoldable pub step : Call → LogStoreInner C → Option (LogStoreInner C)
  step (saves_committed id) s = some (save_committed id s)
  step (saves_vote v) s = some (save_vote v s)
  step (appends es) s = some (append es s)
  step (truncates id) s = some (truncate_after id s)
  step (purges id) s = purge id s

  abbrev pub then_run :
      (LogStoreInner C → Option (LogStoreInner C))
      → Option (LogStoreInner C)
      → Option (LogStoreInner C)
  then_run k none = none
  then_run k (some s) = k s

  -- Calls one after the other; `none` if one of them panics.
  unfoldable pub run : List Call → LogStoreInner C → Option (LogStoreInner C)
  run [] s = some s
  run (c ∷ cs) s = then_run (run cs) (step c s)
