-- ===== src/Facade/Handover/Batch.antt =====
-- crates/multiraft-store/src/sm_bridge.rs and crates/multiraft-net/src/multiraft.rs: from the
-- entries that a standby applies to the state machine that a voter restores. The callback of a
-- trigger runs once all entries of the call of `apply` have been applied.
use bf_multiraft.Base.{
  ℕ, ◌≤◌, ◌≡◌, ap, ◌∙◌, subst, true, some, List, [], ◌∷◌, ◌++◌, Bytes, if◌then◌else◌,
}
use bf_multiraft.Io.{Env, calm}
use bf_multiraft.Io
use bf_multiraft.Fsm.{StateMachine, Restorable}
use bf_multiraft.Fsm
use bf_multiraft.Core.Decimal.{dir_name}
use bf_multiraft.Catalog.{CatalogEntry, Disk, Params, SnapshotCatalog}
use bf_multiraft.Catalog.Written.{meta_of, written}
use bf_multiraft.Catalog.RoundTrip.{Places, Room}
use bf_multiraft.Bridge.{
  SmTypes, Item, SmOptions, Trigger, StateMachineStoreInner, apply, build_standby_snapshot_async,
}
use bf_multiraft.Bridge.Entries.{commands, run_commands, asked}
use bf_multiraft.Bridge.Apply.{apply-Effects}
use bf_multiraft.Facade.Recovery.{try_install_from_standby_catalog}
use bf_multiraft.Facade.Handover.{HandedOver, handover-HandedOver}

module _ (T : SmTypes) (M : StateMachine) (R : Restorable M) (p : Params) (places : Places p)
    (catalog : SnapshotCatalog) (keeps : 1 ≤ catalog.keep) (index term : ℕ)
    (bytes meta_bytes : Bytes) (t : StateMachineStoreInner T M)
    (encoded : p.meta_codec.to_vec
        (meta_of p catalog t.group_id index term (dir_name index term) bytes)
      ≡ some meta_bytes) where
  -- A standby with a callback that applies entries, a trigger for index and term among them, calls
  -- back for that trigger; if the callback then takes the snapshot on a disk without faults, where
  -- the catalog keeps a snapshot or more and has room for one, it succeeds, and a voter that has
  -- the group and recovers from that catalog has a group alike to what all commands among the
  -- entries lead to, also those after the trigger, and this at the log id of the trigger; it stays
  -- alike under the same commands, whatever the voter had before and whatever faults its own disk
  -- has, which decide only its result.
  pub apply-HandedOver :
      (o : SmOptions T) (items : List (Item T)) (u : StateMachineStoreInner T M)
      (before after : List (Trigger T)) (d : Disk) (es : List CatalogEntry)
      (meanwhile : StateMachineStoreInner T M → StateMachineStoreInner T M) (opts : SmOptions T)
      (w : Env Disk)
      → u.group_id ≡ t.group_id
      → o.has_trigger ≡ true
      → asked T M t.group_id items ≡ before ++ ((t.group_id, index, term) ∷ after)
      → (apply T M o items u).result ≡ Io.ok tt
      → M.freeze_for_snapshot t.group_id (apply T M o items u).inner.fsm ≡ Fsm.ok bytes
      → Room p catalog t.group_id index term (dir_name index term) bytes d es
      → let a = apply T M o items u in
        let b =
          build_standby_snapshot_async T M p catalog t.group_id index term meanwhile a.inner
            (calm d) in
        (a.triggers ≡ before ++ ((t.group_id, index, term) ∷ after))
        × (b.result ≡ Io.ok (written p catalog t.group_id index term (dir_name index term) bytes))
        × HandedOver T M R p index term t.group_id bytes
            (run_commands T M t.group_id (commands T M items) u.fsm)
            opts
            w
            (try_install_from_standby_catalog T M p opts t.group_id b.env (some t) w)
  apply-HandedOver o items u before after d es meanwhile opts w group has among ran frozen room =
      let a = apply T M o items u in
      let e = apply-Effects T M o items u ran in
      let (result, handed) =
        handover-HandedOver T M R p places catalog keeps index term bytes meta_bytes t encoded
          a.inner frozen d es meanwhile opts w room in
      (
        e.triggers_eq
            ∙ ap (λ b. if b then asked T M u.group_id items else []) has
            ∙ ap (λ g. asked T M g items) group
            ∙ among,
        result,
        subst
            (λ s. HandedOver T M R p index term t.group_id bytes s opts w (
              try_install_from_standby_catalog T M p opts t.group_id
                (build_standby_snapshot_async T M p catalog t.group_id index term meanwhile a.inner
                  (calm d)).env
                (some t) w))
            (e.fsm_eq ∙ ap (λ g. run_commands T M g (commands T M items) u.fsm) group) handed,
      )
