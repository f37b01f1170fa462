-- ===== src/Facade/Spawn/Offload.antt =====
-- What a start of a group leaves.
use bf_multiraft.Base.{
  ℕ, ◌≡◌, refl, ap, ap₂, ◌∙◌, ◌&&◌, Bool, true, false, not, Option, none, some, ◌==◌, if◌then◌else◌,
}
use bf_multiraft.OrdMap.{OrdMap, lookup, lookup-insert}
use bf_multiraft.Io.{IoResult, Env}
use bf_multiraft.Io
use bf_multiraft.RaftTypes.{RaftTypes}
use bf_multiraft.Fsm.{ok, err, StateMachine}
use bf_multiraft.Core.{ClusterConfig, other}
use bf_multiraft.Catalog.{SnapshotCatalog, Params}
use bf_multiraft.Catalog
use bf_multiraft.Log.File.{Codecs}
use bf_multiraft.Log.File
use bf_multiraft.Bridge.{SmTypes, StateMachineStoreInner, build_snapshot}
use bf_multiraft.Bridge.Snapshots.{build_snapshot-offload}
use bf_multiraft.Facade.{NetBackend, is_standby}
use bf_multiraft.Facade.Runtime.{SnapshotRuntime, offloads}
use bf_multiraft.Facade.Spawn.{
  raft_config, LogStore, SmStore, Openraft, GroupApp, Spawned, has_catalog, sm_options,
  lacks_catalog, log_store, with_log, with_raft, spawn_local_group, with_options,
}

catalog-there :
    (o : Option SnapshotCatalog) (a b : Bool)
    → a ≡ true
    → b ≡ true
    → (a && b && not (has_catalog o)) ≡ false
    → (c : SnapshotCatalog) × (o ≡ some c)
catalog-there none a b h k l = absurd (differ a b h k l)
  where
    differ : (a b : Bool) → a ≡ true → b ≡ true → (a && b && true) ≡ false → ⊥
    differ true true h k l = cc
    differ true false h k l = cc
    differ false b h k l = cc
catalog-there (some c) a b h k l = (c, refl)

module _ (T : SmTypes) (M : StateMachine) (C : RaftTypes) (json : Codecs C) (R : Openraft T M C)
    (config : ClusterConfig) (net : NetBackend) (rt : SnapshotRuntime) (make_fsm : ℕ → M.State)
    (group : ℕ) (groups : OrdMap (GroupApp T M C json R)) where
  -- The store of the group is fresh, and its options are those of the node's mode.
  abbrev fresh : SmStore T M
  fresh = with_options T M group (make_fsm group) (sm_options T M C json R config rt)

  abbrev checked :
      Bool
      → Bool
      → Env File.Disk
      → Env File.Disk
      → IoResult (LogStore C)
      → Spawned T M C json R × Env File.Disk
  checked valid lacks w w' log =
      if not valid
      then ((err other, groups), w)
      else if lacks
      then ((err other, groups), w)
      else (with_log T M C json R config net group fresh groups log, w')

  -- One group more, or an error and the groups as they were.
  abbrev pub Starts : Spawned T M C json R → Type 0
  Starts (err e, left) = left ≡ groups
  Starts (ok u, left) =
      (app : GroupApp T M C json R) × (app.state_machine ≡ fresh)
      × (lacks_catalog T M C json R config rt ≡ false)
      × ((at : ℕ) → lookup at left ≡ (if group == at then some app else lookup at groups))

  with_raft-Starts :
      (handle : Option R.Handle)
      → lacks_catalog T M C json R config rt ≡ false
      → Starts (with_raft T M C json R config group fresh groups handle)
  with_raft-Starts none h = refl
  with_raft-Starts (some raft) h = (_, refl, h, λ at. lookup-insert group at _ groups)

  with_log-Starts :
      (log : IoResult (LogStore C))
      → lacks_catalog T M C json R config rt ≡ false
      → Starts (with_log T M C json R config net group fresh groups log)
  with_log-Starts (Io.err e) h = refl
  with_log-Starts (Io.ok log) h = with_raft-Starts _ h

  checked-Starts :
      (valid lacks : Bool) (w w' : Env File.Disk) (log : IoResult (LogStore C))
      → lacks_catalog T M C json R config rt ≡ lacks
      → Starts (checked valid lacks w w' log).0
  checked-Starts false lacks w w' log h = refl
  checked-Starts true true w w' log h = refl
  checked-Starts true false w w' log h = with_log-Starts log h

  spawn_local_group-Starts :
      (w : Env File.Disk)
      → Starts (spawn_local_group T M C json R config net rt make_fsm group groups w).0
  unfolding spawn_local_group
  spawn_local_group-Starts w =
      checked-Starts (R.validate (raft_config config)) (lacks_catalog T M C json R config rt) w
        (log_store T M C json R config.data_dir w).1 (log_store T M C json R config.data_dir w).0
        refl

  -- A group that the node snapshots from its catalog alone, beside the groups that it had.
  abbrev pub Offloaded : Spawned T M C json R → Type 0
  Offloaded (err e, left) = left ≡ groups
  Offloaded (ok u, left) =
      (app : GroupApp T M C json R) × ((at : ℕ)
        → lookup at left ≡ (if group == at then some app else lookup at groups))
      × ((p : Params) (s : StateMachineStoreInner T M) (fsm : M.State) (w : Env Catalog.Disk)
          → (build_snapshot T M p app.state_machine.opts (record s { fsm = fsm }) w).result
            ≡ (build_snapshot T M p app.state_machine.opts s w).result)
      × (is_standby config.role ≡ true
          → (app.state_machine.opts.has_trigger ≡ true)
            × ((c : SnapshotCatalog) × (app.state_machine.opts.catalog ≡ some c)))

  Starts-Offloaded :
      offloads config.snapshot_mode ≡ true → (r : Spawned T M C json R) → Starts r → Offloaded r
  unfolding with_options
  Starts-Offloaded h (err e, left) same = same
  Starts-Offloaded h (ok u, left) (app, e, l, others) = (
    app,
    others,
    λ p s fsm w.
        (build_snapshot-offload T M p app.state_machine.opts s fsm w
          (ap (λ sm. sm.opts.allow_hot_build) e ∙ ap not h)).0,
    λ k.
        let (c, found) = catalog-there rt.catalog _ _ k h l in
        (
          ap (λ sm. sm.opts.has_trigger) e ∙ ap₂ ◌&&◌ k h,
          (c, ap (λ sm. sm.opts.catalog) e ∙ found),
        ),
  )

  -- On a node in the mode StandbyOffload a group that is started has a state machine whose state
  -- never goes into a snapshot that openraft builds; on a standby its triggers are taken and there
  -- is a catalog to write to. The other groups stay as they were, and an error leaves all of them.
  pub spawn_local_group-Offloaded :
      offloads config.snapshot_mode ≡ true
      → (w : Env File.Disk)
      → Offloaded (spawn_local_group T M C json R config net rt make_fsm group groups w).0
  spawn_local_group-Offloaded h w = Starts-Offloaded h _ (spawn_local_group-Starts w)
