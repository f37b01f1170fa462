-- ===== src/Log/File/Refines.antt =====
-- The file store is the memory store, as long as only the running process is looked at: whatever
-- the disk does, each method computes the same state and the same answers.
use bf_multiraft.Base.{◌≡◌, refl, Option, none, some, arith}
use bf_multiraft.Io.{Env}
use bf_multiraft.RaftTypes.{RaftTypes}
use bf_multiraft.Log.Memory.{
  LogStoreInner, Call, saves_committed, saves_vote, appends, truncates, purges,
}
use bf_multiraft.Log.Memory
use bf_multiraft.Log.File.{Disk, FileLogInner, Codecs, After}
use bf_multiraft.Log.File

module _ (C : RaftTypes) where
  -- The file store without its disk.
  abbrev pub in_memory : FileLogInner C → LogStoreInner C
  in_memory s = record {
    last_purged_log_id = s.last_purged_log_id;
    log = s.log;
    committed = s.committed;
    vote = s.vote;
  }

  abbrev pub memory_after : Option (After C) → Option (LogStoreInner C)
  memory_after none = none
  memory_after (some a) = some (in_memory a.inner)

module _ (C : RaftTypes) (json : Codecs C) where
  -- Whatever the faults, a call leaves in memory what the memory store would hold, and panics
  -- exactly when the memory store would.
  pub step-Memory :
      (c : Call C) (s : FileLogInner C) (w : Env Disk)
      → memory_after C (File.step C json c s w) ≡ Memory.step C c (in_memory C s)
  unfolding File.step Memory.step File.save_committed File.save_vote File.append File.truncate_after
      File.purge Memory.save_committed Memory.save_vote Memory.append Memory.truncate_after
      Memory.purge
  step-Memory (saves_committed id) s w = refl
  step-Memory (saves_vote v) s w = refl
  step-Memory (appends es) s w = refl
  step-Memory (truncates id) s w = refl
  step-Memory (purges id) s w = ground arith
