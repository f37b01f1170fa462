-- ===== src/Log/File.antt =====
-- crates/multiraft-store/src/log_file.rs: the log store that writes its state to two JSON files.
-- As in memory each method holds the lock throughout; what it leaves on disk depends on how the
-- file operations go.
pub mod AtomicWrite
pub mod Refines
pub mod Synced
pub mod Faults
pub mod Recovery
pub mod Calm
pub mod TornPurge
use bf_multiraft.Base.{
  ℕ, Bool, true, false, Option, none, some, List, [], ◌∷◌, if◌then◌else◌, last?, Bytes,
}
use bf_multiraft.OrdMap.{OrdMap, Bound, unbounded, included, insert, range, range_panics, values}
use bf_multiraft.Io.{
  Io, IoResult, IoError, invalid_data, Env, ok, err, attempt, observe, lift, pure, ◌>>=◌, ◌>>◌,
}
use bf_multiraft.Codec.{Codec}
use bf_multiraft.RaftTypes.{RaftTypes}
use bf_multiraft.Log.Memory.{
  LogState, Call, saves_committed, saves_vote, appends, truncates, purges, or_purged,
  insert_entries, remove_range, start_index, option_le,
}

-- `hard_state.json` and `log.json`.
pub data JsonFile : Type 0 where
  hard_state_json log_json : JsonFile

-- The files of one store's directory, with the temporary files of `atomic_write_json`.
pub record Disk : Type 0 where
  pub hard_state : Option Bytes
  pub log : Option Bytes
  pub hard_state_tmp : Option Bytes
  pub log_tmp : Option Bytes

abbrev pub content : JsonFile → Disk → Option Bytes
content hard_state_json d = d.hard_state
content log_json d = d.log

abbrev pub put_tmp : JsonFile → Option Bytes → Disk → Disk
put_tmp f none d = d
put_tmp hard_state_json (some b) d = record d { hard_state_tmp = some b }
put_tmp log_json (some b) d = record d { log_tmp = some b }

-- `fs::rename` of the temporary file.
abbrev pub rename_tmp : JsonFile → Disk → Disk
rename_tmp hard_state_json d = record d { hard_state = d.hard_state_tmp; hard_state_tmp = none }
rename_tmp log_json d = record d { log = d.log_tmp; log_tmp = none }

abbrev pub ok_or : {A : Type 0} → Option A → IoError → IoResult A
ok_or none e = err e
ok_or (some a) e = ok a

unfoldable pub atomic_write_json : {A : Type 0} → Codec A → JsonFile → A → Io Disk (Unit {0})
atomic_write_json codec f value = do
  bytes ← lift (ok_or (codec.to_vec value) invalid_data)
  attempt (put_tmp f (some bytes)) (put_tmp f)
  attempt (rename_tmp f) (λ left d. d)

-- `Path::exists`, which takes an error for an absence.
abbrev pub is_there : Option Bytes → Bool
is_there none = false
is_there (some b) = true

abbrev pub or_absent : IoResult Bool → IoResult Bool
or_absent (ok b) = ok b
or_absent (err e) = ok false

unfoldable pub exists : JsonFile → Io Disk Bool
exists f w = let (r, w') = observe (λ d. is_there (content f d)) w in (or_absent r, w')

-- `fs::read`.
unfoldable pub read : JsonFile → Io Disk Bytes
read f = do found ← observe (content f); lift (ok_or found IoError.not_found)

module _ (C : RaftTypes) where
  pub record HardState : Type 0 where
    pub last_purged_log_id : Option C.LogId
    pub committed : Option C.LogId
    pub vote : Option C.Vote

  -- The directory itself is the disk that the operations are given.
  pub record FileLogInner : Type 0 where
    pub last_purged_log_id : Option C.LogId
    pub log : OrdMap C.Entry
    pub committed : Option C.LogId
    pub vote : Option C.Vote

-- The JSON of the two files.
pub record Codecs (C : RaftTypes) : Type 0 where
  pub hard_state : Codec (HardState C)
  pub entries : Codec (List C.Entry)

-- What a method leaves: its result, the store and the disk.
pub record After (C : RaftTypes) : Type 0 where
  pub result : IoResult (Unit {0})
  pub inner : FileLogInner C
  pub env : Env Disk

module _ (C : RaftTypes) (json : Codecs C) where
  unfoldable pub load_hard_state : Io Disk (HardState C)
  unfolding exists read
  load_hard_state = do
    there ← exists hard_state_json
    if there
        then (do
          bytes ← read hard_state_json
          lift (ok_or (json.hard_state.from_slice bytes) invalid_data))
        else pure (record { last_purged_log_id = none; committed = none; vote = none })

  unfoldable pub load_log : Io Disk (OrdMap C.Entry)
  unfolding exists read insert_entries
  load_log = do
    there ← exists log_json
    if there
        then (do
          bytes ← read log_json
          entries ← lift (ok_or (json.entries.from_slice bytes) invalid_data)
          pure (insert_entries C entries []))
        else pure []

  -- `create_dir_all` changes nothing that the store reads.
  unfoldable pub open_store : Io Disk (FileLogInner C)
  unfolding load_hard_state load_log
  open_store = do
    attempt (λ d. d) (λ left d. d)
    hard ← load_hard_state
    log ← load_log
    pure (record {
      last_purged_log_id = hard.last_purged_log_id;
      log = log;
      committed = hard.committed;
      vote = hard.vote;
    })

  abbrev pub hard_of : FileLogInner C → HardState C
  hard_of s = record {
    last_purged_log_id = s.last_purged_log_id;
    committed = s.committed;
    vote = s.vote;
  }

  unfoldable pub persist_hard_state : FileLogInner C → Io Disk (Unit {0})
  persist_hard_state s = atomic_write_json json.hard_state hard_state_json (hard_of s)

  unfoldable pub persist_log : FileLogInner C → Io Disk (Unit {0})
  persist_log s = atomic_write_json json.entries log_json (values s.log)

  unfoldable pub persist_all : FileLogInner C → Io Disk (Unit {0})
  persist_all s = do persist_hard_state s; persist_log s

  abbrev after : FileLogInner C → (IoResult (Unit {0}) × Env Disk) → After C
  after s r = record { result = r.0; inner = s; env = r.1 }

  unfoldable pub try_get_log_entries : Bound → Bound → FileLogInner C → Option (List C.Entry)
  try_get_log_entries lo hi s =
      if range_panics lo hi then none else some (values (range lo hi s.log))

  unfoldable pub get_log_state : FileLogInner C → LogState C
  get_log_state s = record {
    last_purged_log_id = s.last_purged_log_id;
    last_log_id = or_purged C (last? (values s.log)) s.last_purged_log_id;
  }

  unfoldable pub save_committed : Option C.LogId → FileLogInner C → Env Disk → After C
  save_committed committed s w =
      let s' : FileLogInner C = record s { committed = committed } in
      after s' (persist_hard_state s' w)

  unfoldable pub read_committed : FileLogInner C → Option C.LogId
  read_committed s = s.committed

  unfoldable pub save_vote : C.Vote → FileLogInner C → Env Disk → After C
  save_vote vote s w =
      let s' : FileLogInner C = record s { vote = some vote } in after s' (persist_hard_state s' w)

  unfoldable pub read_vote : FileLogInner C → Option C.Vote
  read_vote s = s.vote

  -- The callback is told the result that the caller gets.
  unfoldable pub append : List C.Entry → FileLogInner C → Env Disk → After C
  append entries s w =
      let s' : FileLogInner C = record s { log = insert_entries C entries s.log } in
      after s' (persist_all s' w)

  unfoldable pub truncate_after : Option C.LogId → FileLogInner C → Env Disk → After C
  truncate_after last_log_id s w =
      let s' : FileLogInner C = record s {
        log = remove_range C (included (start_index C last_log_id)) unbounded s.log;
      } in
      after s' (persist_log s' w)

  -- `none` is the failed assertion.
  unfoldable pub purge : C.LogId → FileLogInner C → Env Disk → Option (After C)
  purge log_id s w =
      let s' : FileLogInner C = record s {
        last_purged_log_id = some log_id;
        log = remove_range C unbounded (included (C.index log_id)) s.log;
      } in
      if option_le C s.last_purged_log_id log_id then some (after s' (persist_all s' w)) else none

  -- Any of the calls that change the store.
  unfoldable pub step : Call C → FileLogInner C → Env Disk → Option (After C)
  step (saves_committed id) s w = some (save_committed id s w)
  step (saves_vote v) s w = some (save_vote v s w)
  step (appends es) s w = some (append es s w)
  step (truncates id) s w = some (truncate_after id s w)
  step (purges id) s w = purge id s w

  -- The next call is made only if this one returned `Ok`.
  abbrev pub then_run :
      (FileLogInner C → Env Disk → Option (FileLogInner C × Env Disk))
      → Option (After C)
      → Option (FileLogInner C × Env Disk)
  then_run k none = none
  then_run k (some a) = elim a.result [ ok u ↦ k a.inner a.env | err e ↦ none ]

  -- Calls one after the other; `none` if one of them panics or fails.
  unfoldable pub run :
      List (Call C) → FileLogInner C → Env Disk → Option (FileLogInner C × Env Disk)
  run [] s w = some (s, w)
  run (c ∷ cs) s w = then_run (run cs) (step c s w)
