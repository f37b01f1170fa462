-- ===== src/Facade/Recovery.antt =====
-- crates/multiraft-net/src/multiraft.rs: recovery from the catalog of a standby. The standby's disk
-- and the local one each have their own faults.
use bf_multiraft.Base.{ℕ, ◌≡◌, Option, none, some, List, Bytes}
use bf_multiraft.Io.{IoResult, IoError, Env}
use bf_multiraft.Io
use bf_multiraft.Fsm.{Result, ok, err, StateMachine}
use bf_multiraft.Core.{MultiRaftError, other, unknown_group}
use bf_multiraft.Catalog.{CatalogEntry, Disk, Params, list, latest, read}
use bf_multiraft.Catalog.Lookups.{IsLatest}
use bf_multiraft.Catalog.Reading.{IsRead}
use bf_multiraft.Bridge.{
  SmTypes, SmOptions, StateMachineStoreInner, After, install_durable_snapshot,
}

module _ (T : SmTypes) (M : StateMachine) (p : Params) where
  -- What a recovery leaves: the result and the store of the group, if the node has it.
  pub record Recovered : Type 0 where
    pub result : Result MultiRaftError (Unit {0})
    pub store : Option (StateMachineStoreInner T M)

  abbrev pub to_result : IoResult (Unit {0}) → Result MultiRaftError (Unit {0})
  to_result (Io.ok u) = ok tt
  to_result (Io.err e) = err other

  abbrev fails : MultiRaftError → Option (StateMachineStoreInner T M) → Recovered
  fails e store = record { result = err e; store = store }

  abbrev pub stored : After T M (Unit {0}) → Recovered
  stored a = record { result = to_result a.result; store = some a.inner }

  -- `MultiRaft::install_durable_snapshot`.
  unfoldable pub install_in_group :
      SmOptions T → ℕ → ℕ → ℕ → Bytes → Option (StateMachineStoreInner T M) → Env Disk → Recovered
  install_in_group opts group last_index last_term bytes none w = fails (unknown_group group) none
  install_in_group opts group last_index last_term bytes (some s) w =
      stored (install_durable_snapshot T M p opts last_index last_term bytes s w)

  abbrev with_data :
      SmOptions T
      → ℕ
      → CatalogEntry
      → IoResult (Option Bytes)
      → Option (StateMachineStoreInner T M)
      → Env Disk
      → Recovered
  with_data opts group entry (Io.err e) store w = fails other store
  with_data opts group entry (Io.ok none) store w = fails other store
  with_data opts group entry (Io.ok (some bytes)) store w =
      install_in_group opts group entry.last_index entry.last_term bytes store w

  abbrev with_entry :
      SmOptions T
      → ℕ
      → IoResult (Option CatalogEntry)
      → Env Disk
      → Option (StateMachineStoreInner T M)
      → Env Disk
      → Recovered
  with_entry opts group (Io.err e) standby store w = fails other store
  with_entry opts group (Io.ok none) standby store w = fails other store
  with_entry opts group (Io.ok (some entry)) standby store w =
      with_data opts group entry (read p group entry.snapshot_id standby).0 store w

  unfoldable pub try_install_from_standby_catalog :
      SmOptions T → ℕ → Env Disk → Option (StateMachineStoreInner T M) → Env Disk → Recovered
  try_install_from_standby_catalog opts group standby store w =
      with_entry opts group (latest p group standby).0 (latest p group standby).1 store w

  -- The store after a recovery from the catalog of the standby.
  pub record FromStandby (group : ℕ) (standby : Env Disk)
      (store : Option (StateMachineStoreInner T M)) : Type 0 where
    pub entries : List CatalogEntry
    pub newest : CatalogEntry
    pub entries_listed : (list p group standby).0 ≡ Io.ok entries
    pub newest_latest : IsLatest p newest entries
    pub bytes : Bytes
    pub disk_eq : (latest p group standby).1.disk ≡ standby.disk
    pub bytes_read : IsRead p group newest.snapshot_id (latest p group standby).1 bytes
    pub inner : StateMachineStoreInner T M
    pub inner_stored : store ≡ some inner
    pub inner_applied :
        inner.last_applied_log ≡ some (T.new_log_id newest.last_term newest.last_index)
    pub inner_fsm : (before : M.State) × (g : ℕ) × (inner.fsm ≡ (M.restore g bytes before).1)

  -- What is left to show once the data is there.
  abbrev Installed : ℕ → ℕ → Bytes → Option (StateMachineStoreInner T M) → Type 0
  Installed index term bytes store =
      (inner : StateMachineStoreInner T M) × (store ≡ some inner)
      × (inner.last_applied_log ≡ some (T.new_log_id term index))
      × ((before : M.State) × (g : ℕ) × (inner.fsm ≡ (M.restore g bytes before).1))
