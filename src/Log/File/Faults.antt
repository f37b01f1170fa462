-- ===== src/Log/File/Faults.antt =====
-- What a call leaves on disk under faults: success means durable, and a fault or a crash at any
-- point leaves a directory that opens.
use bf_multiraft.Base.{◌≡◌, refl, sym, ap, subst, of_some, ◌⊎◌, inl, inr, some, Bytes, arith}
use bf_multiraft.OrdMap.{OrdMap, values, unbounded, included}
use bf_multiraft.Io.{IoResult, IoError, ok, err, Env, continue}
use bf_multiraft.RaftTypes.{RaftTypes}
use bf_multiraft.Log.Memory.{
  Call, saves_committed, saves_vote, appends, truncates, purges, remove_range,
}
use bf_multiraft.Log.Memory.Invariant.{IsLog, insert_entries-IsLog, remove_range-IsLog}
use bf_multiraft.Log.File.{
  Disk, hard_state_json, log_json, HardState, FileLogInner, Codecs, After, hard_of,
  persist_hard_state, persist_log, persist_all, step, save_committed, save_vote, append,
  truncate_after, purge,
}
use bf_multiraft.Log.File.AtomicWrite.{Ended, written, kept, atomic_write_json-Ended}
use bf_multiraft.Log.File.Synced.{hard_read, log_read, Synced, reload}

module _ (C : RaftTypes) (json : Codecs C) where
  -- How a call that writes ended, with the store before it and after it.
  pub data Left (old new : FileLogInner C) (r : IoResult (Unit {0})) (d : Disk) : Type 0 where
    saved : r ≡ ok tt → Synced C json new d → Left old new r d
    unchanged : (e : IoError) → r ≡ err e → Synced C json old d → Left old new r d

  -- The first of two writes was done and the second failed.
  abbrev Torn : FileLogInner C → FileLogInner C → IoResult (Unit {0}) → Disk → Type 0
  Torn old new r d = (e : IoError) × (r ≡ err e) × Synced C json (record new { log = old.log }) d

  pub hard_read-to_vec :
      (h : HardState C) (b : Bytes)
      → json.hard_state.to_vec h ≡ some b
      → hard_read C json (some b) ≡ ok h
  unfolding hard_read
  hard_read-to_vec h b q = rw (json.hard_state.round_trip h b q)

  log_read-to_vec :
      (m : OrdMap C.Entry) (b : Bytes)
      → IsLog C m
      → json.entries.to_vec (values m) ≡ some b
      → log_read C json (some b) ≡ ok m
  unfolding log_read
  log_read-to_vec m b h q = rw (json.entries.round_trip (values m) b q) (ap ok (reload C m h))

  hard_after :
      (old new : FileLogInner C) (d d' : Disk) (r : IoResult (Unit {0}))
      → new.log ≡ old.log
      → Synced C json old d
      → Ended json.hard_state hard_state_json (hard_of C json new) d d' r
      → Left old new r d'
  hard_after old new d d' r l s (written b e q c o) = saved e (record {
    hard = rw c (hard_read-to_vec _ b q);
    log = rw (o, l) s.log;
    is_log = rw l s.is_log;
  })
  hard_after old new d d' r l s (kept f e c o) =
      unchanged f e (record { hard = rw c s.hard; log = rw o s.log; is_log = s.is_log })

  log_after :
      (old new : FileLogInner C) (d d' : Disk) (r : IoResult (Unit {0}))
      → hard_of C json new ≡ hard_of C json old
      → IsLog C new.log
      → Synced C json old d
      → Ended json.entries log_json (values new.log) d d' r
      → Left old new r d'
  log_after old new d d' r l i s (written b e q c o) =
      saved e (record { hard = rw (o, l) s.hard; log = rw c (log_read-to_vec _ b i q); is_log = i })
  log_after old new d d' r l i s (kept f e c o) =
      unchanged f e (record { hard = rw o s.hard; log = rw c s.log; is_log = s.is_log })

  lay-Torn :
      (old new : FileLogInner C) (r : IoResult (Unit {0})) (d : Disk)
      → Left (record new { log = old.log }) new r d
      → Left old new r d ⊎ Torn old new r d
  lay-Torn old new r d (saved e s) = inl (saved e s)
  lay-Torn old new r d (unchanged f e s) = inr (f, e, s)

  all_after :
      (old new : FileLogInner C) (w : Env Disk)
      → IsLog C new.log
      → Synced C json old w.disk
      → Left old new (persist_all C json new w).0 (persist_all C json new w).1.disk
        ⊎ Torn old new (persist_all C json new w).0 (persist_all C json new w).1.disk
  unfolding persist_all persist_log persist_hard_state
  all_after old new w i s =
      go _ _ (atomic_write_json-Ended json.hard_state _ hard_state_json w.disk w.pending)
    where
      mid : FileLogInner C
      mid = record new { log = old.log }

      go :
          (r : IoResult (Unit {0})) (w' : Env Disk)
          → Ended json.hard_state hard_state_json (hard_of C json new) w.disk w'.disk r
          → Left old new
              (continue r (λ _. persist_log C json new) w').0
              (continue r (λ _. persist_log C json new) w').1.disk
            ⊎ Torn old new
                (continue r (λ _. persist_log C json new) w').0
                (continue r (λ _. persist_log C json new) w').1.disk
      go r w' (written b e q c o) = rw e (
          lay-Torn old new _ _ (
            log_after mid new w'.disk _ _ refl i
              (record { hard = rw c (hard_read-to_vec _ b q); log = rw o s.log; is_log = s.is_log })
              (atomic_write_json-Ended json.entries _ log_json w'.disk w'.pending)))
      go r w' (kept f e c o) = rw e (
          inl
            (unchanged f refl (record { hard = rw c s.hard; log = rw o s.log; is_log = s.is_log })))

  abbrev pub LeftBy : FileLogInner C → After C → Type 0
  LeftBy s a = Left s a.inner a.result a.env.disk

  purge-some :
      (id : C.LogId) (s : FileLogInner C) (w : Env Disk) (a : After C)
      → purge C json id s w ≡ some a
      → (s' : FileLogInner C) × (s' ≡ record s {
        last_purged_log_id = some id;
        log = remove_range C unbounded (included (C.index id)) s.log;
      })
        × (a ≡ record {
          result = (persist_all C json s' w).0;
          inner = s';
          env = (persist_all C json s' w).1;
        })
  unfolding purge
  purge-some id s w a e = (_, refl, ground arith)

  whole :
      (s : FileLogInner C) (m : OrdMap C.Entry) (r : IoResult (Unit {0})) (d : Disk)
      → Left s (record s { log = m }) r d ⊎ Torn s (record s { log = m }) r d
      → Left s (record s { log = m }) r d
  whole s m r d (inl l) = l
  whole s m r d (inr (e, q, h)) = unchanged e q h

  -- What each call leaves. Only `purge` can leave the hard state new and the log old.
  abbrev pub LeftAfter : Call C → FileLogInner C → After C → Type 0
  LeftAfter (saves_committed id) s a = LeftBy s a
  LeftAfter (saves_vote v) s a = LeftBy s a
  LeftAfter (appends es) s a = LeftBy s a
  LeftAfter (truncates id) s a = LeftBy s a
  LeftAfter (purges id) s a =
      LeftBy s a
      ⊎ ((e : IoError) × (a.result ≡ err e)
          × Synced C json (record s { last_purged_log_id = some id }) a.env.disk)

  pub step-Left :
      (c : Call C) (s : FileLogInner C) (w : Env Disk) (a : After C)
      → step C json c s w ≡ some a
      → Synced C json s w.disk
      → LeftAfter c s a
  unfolding step save_committed save_vote append truncate_after persist_hard_state persist_log
  step-Left (saves_committed id) s w a e h = of_some (LeftBy s) e (
      hard_after s _ w.disk _ _ refl h
        (atomic_write_json-Ended json.hard_state _ hard_state_json w.disk w.pending))
  step-Left (saves_vote v) s w a e h = of_some (LeftBy s) e (
      hard_after s _ w.disk _ _ refl h
        (atomic_write_json-Ended json.hard_state _ hard_state_json w.disk w.pending))
  step-Left (appends es) s w a e h =
      of_some (LeftBy s) e
        (whole s _ _ _ (all_after s _ w (insert_entries-IsLog C es s.log h.is_log) h))
  step-Left (truncates id) s w a e h = of_some (LeftBy s) e (
      log_after s _ w.disk _ _ refl (remove_range-IsLog C _ _ s.log h.is_log) h
        (atomic_write_json-Ended json.entries _ log_json w.disk w.pending))
  step-Left (purges id) s w a e h =
      let (s', q, p) = purge-some id s w a e in
      let l : IsLog C s'.log = rw q (remove_range-IsLog C _ _ s.log h.is_log) in
      subst (LeftAfter (purges id) s) (sym p) (
        subst
          (λ t. LeftAfter (purges id) s (record {
            result = (persist_all C json t w).0;
            inner = t;
            env = (persist_all C json t w).1;
          }))
          (sym q) (all_after s _ w (subst (λ (t : FileLogInner C). IsLog C t.log) q l) h))
