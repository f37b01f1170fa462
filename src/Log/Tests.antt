-- ===== src/Log/Tests.antt =====
-- The log stores at concrete calls. A log id is a term and an index, an entry its log id and a
-- number, and the JSON of a value is its numbers in a row.
use bf_multiraft.Base.{
  ℕ, ◌+◌, zero, suc, ◌≡◌, refl, ◌&&◌, ◌||◌, Option, none, some, List, [], ◌∷◌, arith, Bytes, ltb,
  leb, ◌==◌,
}
use bf_multiraft.OrdMap.{
  unbounded, included, excluded, lookup, insert, remove, remove_all, select, range,
}
use bf_multiraft.Io.{err, os, done, fails, calm}
use bf_multiraft.RaftTypes.{RaftTypes}
use bf_multiraft.Log.Memory.{LogStoreInner, Call, saves_vote, appends, truncates, purges}
use bf_multiraft.Log.Memory
use bf_multiraft.Log.Memory.Invariant.{IsLog}
use bf_multiraft.Log.Memory.Reads.{try_get_log_entries-collect}
use bf_multiraft.Log.Memory.Gaps.{NoGaps, step-NoGaps}
use bf_multiraft.Log.File.{Disk, FileLogInner, HardState, Codecs, After}
use bf_multiraft.Log.File
use bf_multiraft.Log.File.Refines.{in_memory, memory_after, step-Memory}
use bf_multiraft.Log.File.Synced.{Synced, Reopens, hard_read, log_read}
use bf_multiraft.Log.File.Recovery.{Recovers, step-Recovers, run-Reopens}
use bf_multiraft.Log.File.Calm.{run-Succeeds}
use bf_multiraft.Log.File.TornPurge.{second_write_fails, purge-torn}

abbrev TestLogId : Type 0
TestLogId = ℕ × ℕ

abbrev TestEntry : Type 0
TestEntry = TestLogId × ℕ

abbrev pub types : RaftTypes
types = record {
  LogId = TestLogId;
  Vote = ℕ;
  Entry = TestEntry;
  index = λ i. i.1;
  log_id_le = λ a b. ltb a.0 b.0 || ((a.0 == b.0) && leb a.1 b.1);
  log_id = λ e. e.0;
  entry_index = λ e. e.0.1;
  index-log_id = λ e. refl;
}

abbrev put_entries : List TestEntry → Bytes
put_entries [] = []
put_entries (((t, i), v) ∷ es) = t ∷ i ∷ v ∷ put_entries es

abbrev cons_entry : TestEntry → Option (List TestEntry) → Option (List TestEntry)
cons_entry e none = none
cons_entry e (some es) = some (e ∷ es)

abbrev get_entries : Bytes → Option (List TestEntry)
get_entries [] = some []
get_entries (t ∷ i ∷ v ∷ b) = cons_entry ((t, i), v) (get_entries b)
get_entries _ = none

get-put_entries : (es : List TestEntry) → get_entries (put_entries es) ≡ some es
get-put_entries [] = refl
get-put_entries (((t, i), v) ∷ es) = rw (get-put_entries es)

pub entries_round_trip :
    (es : List TestEntry) (b : Bytes) → some (put_entries es) ≡ some b → get_entries b ≡ some es
entries_round_trip es b h = let q : put_entries es ≡ b = cc in rw (← q) (get-put_entries es)

abbrev put_id : Option TestLogId → Bytes → Bytes
put_id none b = 0 ∷ b
put_id (some (t, i)) b = 1 ∷ t ∷ i ∷ b

abbrev put_vote : Option ℕ → Bytes
put_vote none = []
put_vote (some v) = v ∷ []

abbrev put_hard : HardState types → Bytes
put_hard h = put_id h.last_purged_log_id (put_id h.committed (put_vote h.vote))

abbrev get_id : Bytes → Option TestLogId × Bytes
get_id (zero ∷ b) = (none, b)
get_id (suc n ∷ t ∷ i ∷ b) = (some (t, i), b)
get_id b = (none, b)

abbrev get_vote : Bytes → Option ℕ
get_vote [] = none
get_vote (v ∷ b) = some v

abbrev get_hard : Bytes → Option (HardState types)
get_hard b = some (record {
  last_purged_log_id = (get_id b).0;
  committed = (get_id (get_id b).1).0;
  vote = get_vote (get_id (get_id b).1).1;
})

get-put_id : (o : Option TestLogId) (b : Bytes) → get_id (put_id o b) ≡ (o, b)
get-put_id none b = refl
get-put_id (some (t, i)) b = refl

get-put_vote : (v : Option ℕ) → get_vote (put_vote v) ≡ v
get-put_vote none = refl
get-put_vote (some v) = refl

pub hard_round_trip :
    (h : HardState types) (b : Bytes) → some (put_hard h) ≡ some b → get_hard b ≡ some h
hard_round_trip h b e =
    let q : put_hard h ≡ b = cc in rw (← q) (rw (get-put_id, get-put_id, get-put_vote) refl)

abbrev pub json : Codecs types
json = record {
  hard_state = record {
    to_vec = λ h. some (put_hard h);
    from_slice = get_hard;
    round_trip = hard_round_trip;
  };
  entries = record {
    to_vec = λ es. some (put_entries es);
    from_slice = get_entries;
    round_trip = entries_round_trip;
  };
}

abbrev entry : ℕ → ℕ → ℕ → TestEntry
entry t i v = ((t, i), v)

-- Entries 1 to 3.
abbrev store : LogStoreInner types
store = record {
  last_purged_log_id = none;
  log = (0, entry 1 0 9) ∷ (1, entry 1 1 7) ∷ (2, entry 1 2 8) ∷ (3, entry 2 3 5) ∷ [];
  committed = some (1, 1);
  vote = some 4;
}

store-IsLog : IsLog types store.log
store-IsLog = record { ascending = omega arith; keyed = omega arith }

store-NoGaps : NoGaps types store
store-NoGaps = record { run = omega arith }

step-NoGaps_example : NoGaps types (Memory.truncate_after types (some (1, 1)) store)
unfolding Memory.step
step-NoGaps_example =
    step-NoGaps types (truncates (some (1, 1))) store _ (omega arith) refl store-NoGaps

try_get_log_entries-collect_example :
    Memory.try_get_log_entries types (included 1) (excluded (1 + 2)) store
    ≡ some (entry 1 1 7 ∷ entry 1 2 8 ∷ [])
unfolding lookup
try_get_log_entries-collect_example = try_get_log_entries-collect types store 1 2 store-IsLog

abbrev purged_store : LogStoreInner types
purged_store = record store {
  last_purged_log_id = some (1, 1);
  log = Memory.remove_range types unbounded (included 1) store.log;
}

-- A directory with no file in it yet, and the store that it opens to.
abbrev no_files : Disk
no_files = record { hard_state = none; log = none; hard_state_tmp = none; log_tmp = none }

abbrev fresh : FileLogInner types
fresh = record { last_purged_log_id = none; log = []; committed = none; vote = none }

fresh-Synced : Synced types json fresh no_files
unfolding hard_read log_read
fresh-Synced = record {
  hard = refl;
  log = refl;
  is_log = record { ascending = omega arith; keyed = omega arith };
}

abbrev calls : List (Call types)
calls = saves_vote 4 ∷ appends (entry 1 0 9 ∷ entry 1 1 7 ∷ []) ∷ purges (1, 0) ∷ []

run-Succeeds_example :
    (s' : FileLogInner types) × (d' : Disk) × (File.run types json calls fresh (calm no_files)
      ≡ some (s', calm d'))
    × (in_memory types s' ≡ record {
      last_purged_log_id = some (1, 0);
      log = (1, entry 1 1 7) ∷ [];
      committed = none;
      vote = some 4;
    })
    × Reopens types json d' s'
unfolding Memory.run Memory.step Memory.save_vote Memory.append Memory.insert_entries Memory.purge
    Memory.remove_range insert remove_all remove select range
run-Succeeds_example =
    run-Succeeds types json (λ h. (_, refl)) (λ es. (_, refl)) calls fresh _ no_files fresh-Synced
      refl

run-Reopens_example :
    Reopens types json
      (record {
        hard_state =
            some (put_hard (record { last_purged_log_id = none; committed = none; vote = some 4 }));
        log = none;
        hard_state_tmp = none;
        log_tmp = none;
      })
      (record fresh { vote = some 4 })
    × (Memory.run types (saves_vote 4 ∷ []) (in_memory types fresh)
        ≡ some (in_memory types (record fresh { vote = some 4 })))
unfolding File.run File.step File.save_vote File.persist_hard_state File.atomic_write_json
run-Reopens_example =
    run-Reopens types json (saves_vote 4 ∷ []) fresh (record fresh { vote = some 4 })
      (calm no_files) (calm _) fresh-Synced refl

-- The disk is full when the log is to be written.
step-Recovers_example : Recovers types json (appends (entry 1 0 9 ∷ [])) fresh (
    File.append types json
      (entry 1 0 9 ∷ [])
      fresh
      (record { disk = no_files; pending = done ∷ done ∷ fails (some (1 ∷ [])) ∷ [] }))
unfolding File.step
step-Recovers_example =
    step-Recovers types json (appends (entry 1 0 9 ∷ [])) fresh
      (record { disk = no_files; pending = done ∷ done ∷ fails (some (1 ∷ [])) ∷ [] }) _
      fresh-Synced refl

-- The file store with the same four entries.
abbrev opened : FileLogInner types
opened = record {
  last_purged_log_id = none;
  log = store.log;
  committed = some (1, 1);
  vote = some 4;
}

step-Memory_example :
    memory_after types (File.step types json (purges (1, 1)) opened (calm no_files))
    ≡ Memory.step types (purges (1, 1)) store
step-Memory_example = step-Memory types json (purges (1, 1)) opened (calm no_files)

purge-torn_example :
    (a : After types) × (File.purge types json
        (1, 1)
        fresh
        (second_write_fails types json (λ h. (_, refl)) (λ es. (_, refl)) no_files none)
      ≡ some a)
    × (a.result ≡ err os)
    × Reopens types json a.env.disk (record fresh { last_purged_log_id = some (1, 1) })
purge-torn_example =
    purge-torn types json (λ h. (_, refl)) (λ es. (_, refl)) fresh no_files (1, 1) none fresh-Synced
      refl
