-- ===== src/Facade/Handover.antt =====
-- crates/multiraft-store/src/sm_bridge.rs and crates/multiraft-net/src/multiraft.rs: what a standby
-- writes to its catalog for a trigger, and what a voter then restores from it.
pub mod Batch
use bf_multiraft.Base.{ℕ, ◌≤◌, ◌≡◌, refl, some, List, [], ◌∷◌, Bytes}
use bf_multiraft.Io.{Env, calm}
use bf_multiraft.Io
use bf_multiraft.Fsm.{Result, StateMachine, Restorable}
use bf_multiraft.Fsm
use bf_multiraft.Core.Decimal.{dir_name}
use bf_multiraft.Catalog.{CatalogEntry, Disk, Params, SnapshotCatalog}
use bf_multiraft.Catalog.Written.{meta_of, written}
use bf_multiraft.Catalog.RoundTrip.{Places, Room, write-ReadsBack}
use bf_multiraft.Bridge.{
  SmTypes, SmOptions, StateMachineStoreInner, snapshot_at, build_standby_snapshot_async,
  install_durable_snapshot, installed, restored, write_if,
}
use bf_multiraft.Bridge.Entries.{run_commands}
use bf_multiraft.Facade.Recovery.{
  Recovered, to_result, stored, install_in_group, try_install_from_standby_catalog,
}

module _ (T : SmTypes) (M : StateMachine) (R : Restorable M) (p : Params) where
  -- Groups that are alike stay alike under the same commands.
  run_commands-Same :
      (group : ℕ) (cs : List (T.LogId × Bytes)) (s t : M.State)
      → R.Same group s t
      → R.Same group (run_commands T M group cs s) (run_commands T M group cs t)
  unfolding run_commands
  run_commands-Same group [] s t h = h
  run_commands-Same group ((id, command) ∷ cs) s t h =
      run_commands-Same group cs (M.apply group (T.index id) command s).1
        (M.apply group (T.index id) command t).1 (R.Same-apply group (T.index id) command s t h).1

  -- What a voter that recovers at index and term has then: a group that is alike to that of the
  -- standby, at the log id of the trigger. Its result is that of the write to its own catalog.
  pub record HandedOver (index term group : ℕ) (bytes : Bytes) (s : M.State) (opts : SmOptions T)
      (w : Env Disk) (a : Recovered T M p) : Type 0 where
    pub inner : StateMachineStoreInner T M
    pub inner_stored : a.store ≡ some inner
    pub applied : inner.last_applied_log ≡ some (T.new_log_id term index)
    pub same : R.Same group s inner.fsm
    pub stays_same :
        (cs : List (T.LogId × Bytes))
        → R.Same group (run_commands T M group cs s) (run_commands T M group cs inner.fsm)
    pub result_saved :
        a.result
        ≡ to_result T M p
            (write_if T M p opts.catalog group index term (dir_name index term) bytes w).0

  restored-HandedOver :
      (index term group : ℕ) (bytes : Bytes) (s : M.State) (opts : SmOptions T) (w : Env Disk)
      (t : StateMachineStoreInner T M) (x : Result M.Error (Unit {0}) × M.State)
      → x.0 ≡ Fsm.ok tt
      → R.Same group s x.1
      → HandedOver index term group bytes s opts w (
          stored T M p (
            restored T M p
              (snapshot_at T M term index T.default_membership (dir_name index term) bytes)
              x
              t
              (write_if T M p opts.catalog group index term (dir_name index term) bytes)
              w))
  restored-HandedOver index term group bytes s opts w t (Fsm.ok u, fsm) h k = record {
    inner =
        installed T M p
          (snapshot_at T M term index T.default_membership (dir_name index term) bytes) fsm t;
    inner_stored = refl;
    applied = refl;
    same = k;
    stays_same = λ cs. run_commands-Same group cs s fsm k;
    result_saved = refl;
  }
  restored-HandedOver index term group bytes s opts w t (Fsm.err e, fsm) h k = cc

  module _ (places : Places p) (catalog : SnapshotCatalog) (keeps : 1 ≤ catalog.keep)
      (index term : ℕ) (bytes meta_bytes : Bytes) (t : StateMachineStoreInner T M)
      (encoded : p.meta_codec.to_vec
          (meta_of p catalog t.group_id index term (dir_name index term) bytes)
        ≡ some meta_bytes)
      (s : StateMachineStoreInner T M)
      (frozen : M.freeze_for_snapshot t.group_id s.fsm ≡ Fsm.ok bytes) where
    abbrev new : CatalogEntry
    new = written p catalog t.group_id index term (dir_name index term) bytes

    -- A standby on a disk without faults whose catalog keeps a snapshot or more and has room for
    -- one takes it for a trigger; it succeeds, and a voter that has the group and recovers from
    -- that catalog then has a group alike to that of the standby, at the log id of the trigger, and
    -- that stays alike as both apply the same commands, whatever the voter had before and whatever
    -- faults its own disk has, which decide only its result.
    pub handover-HandedOver :
        (d : Disk) (es : List CatalogEntry)
        (meanwhile : StateMachineStoreInner T M → StateMachineStoreInner T M) (opts : SmOptions T)
        (w : Env Disk)
        → Room p catalog t.group_id index term (dir_name index term) bytes d es
        → let a =
            build_standby_snapshot_async T M p catalog t.group_id index term meanwhile s (calm d) in
          (a.result ≡ Io.ok new)
          × HandedOver index term t.group_id bytes s.fsm opts w
              (try_install_from_standby_catalog T M p opts t.group_id a.env (some t) w)
    unfolding build_standby_snapshot_async try_install_from_standby_catalog install_in_group
        install_durable_snapshot
    handover-HandedOver d es meanwhile opts w room =
        let (d', q, r, l) =
          write-ReadsBack p places catalog keeps t.group_id index term (dir_name index term) bytes
            meta_bytes encoded d es room in
        let (restores, same) = R.Same-restore t.group_id s.fsm t.fsm bytes frozen in
        rw (frozen, q, l, r)
          (
            refl,
            restored-HandedOver index term t.group_id bytes s.fsm opts w t
                (M.restore t.group_id bytes t.fsm) restores same,
          )
