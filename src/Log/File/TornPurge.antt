-- ===== src/Log/File/TornPurge.antt =====
-- The one call that is not all or nothing on disk.
use bf_multiraft.Base.{◌≡◌, refl, Option, true, none, some, [], ◌∷◌, Bytes}
use bf_multiraft.OrdMap.{values, included, unbounded}
use bf_multiraft.Io.{err, os, done, fails, Env, calm}
use bf_multiraft.RaftTypes.{RaftTypes}
use bf_multiraft.Log.Memory.{option_le, remove_range}
use bf_multiraft.Log.File.{
  Disk, log_json, put_tmp, FileLogInner, Codecs, After, hard_of, persist_hard_state, persist_log,
  persist_all, purge, atomic_write_json,
}
use bf_multiraft.Log.File.Synced.{Synced, Reopens, open_store-Synced}
use bf_multiraft.Log.File.Faults.{hard_read-to_vec}
use bf_multiraft.Log.File.Calm.{Encodes}

module _ (C : RaftTypes) (json : Codecs C) (hard : Encodes json.hard_state)
    (entries : Encodes json.entries) where
  -- The hard state is written, and writing the log fails.
  abbrev pub second_write_fails : Disk → Option Bytes → Env Disk
  second_write_fails d left = record { disk = d; pending = done ∷ done ∷ fails left ∷ [] }

  abbrev hard_written : Disk → Bytes → Disk
  hard_written d b = record d { hard_state = some b; hard_state_tmp = none }

  hard_state_only :
      (s new : FileLogInner C) (d : Disk) (left : Option Bytes) (b : Bytes)
      → json.hard_state.to_vec (hard_of C json new) ≡ some b
      → Synced C json s d
      → Synced C json (record new { log = s.log }) (put_tmp log_json left (hard_written d b))
  hard_state_only s new d none b q y = record {
    hard = hard_read-to_vec C json _ b q;
    log = y.log;
    is_log = y.is_log;
  }
  hard_state_only s new d (some x) b q y = record {
    hard = hard_read-to_vec C json _ b q;
    log = y.log;
    is_log = y.is_log;
  }

  -- If the second of the two writes of a `purge` fails, the call returns an error, and the
  -- directory reopens to a store whose purged log id is the new one and whose log still has every
  -- entry.
  pub purge-torn :
      (s : FileLogInner C) (d : Disk) (id : C.LogId) (left : Option Bytes)
      → Synced C json s d
      → option_le C s.last_purged_log_id id ≡ true
      → (a : After C) × (purge C json id s (second_write_fails d left) ≡ some a)
        × (a.result ≡ err os)
        × Reopens C json a.env.disk (record s { last_purged_log_id = some id })
  unfolding purge persist_all persist_hard_state persist_log atomic_write_json
  purge-torn s d id left y h =
      let new : FileLogInner C = record s {
        last_purged_log_id = some id;
        log = remove_range C unbounded (included (C.index id)) s.log;
      } in
      let (b, q) = hard (hard_of C json new) in
      let (b', q') = entries (values new.log) in
      (
        record {
          result = err os;
          inner = new;
          env = calm (put_tmp log_json left (hard_written d b));
        },
        rw (h, q, q') refl,
        refl,
        open_store-Synced C json _ _ (hard_state_only s new d left b q y),
      )
