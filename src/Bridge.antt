-- ===== src/Bridge.antt =====
-- crates/multiraft-store/src/sm_bridge.rs: the store through which openraft drives a state machine.
-- A method that takes the lock once is a function of the state behind it; what the environment does
-- between two locks is an argument.
pub mod Entries
pub mod Apply
pub mod Replicas
pub mod Snapshots
pub mod Tests
use bf_multiraft.Base.{
  ℕ, ◌+◌, ◌%◌, ◌^◌, Bool, true, false, Option, none, some, List, [], ◌∷◌, ◌++◌, Bytes,
  if◌then◌else◌,
}
use bf_multiraft.Io.{Io, IoResult, IoError, ok, err, invalid_data, Env, continue, lift, pure, ◌>>=◌}
use bf_multiraft.Fsm.{Result, StateMachine, ApplyOut}
use bf_multiraft.Fsm
use bf_multiraft.Core.{Request, Response, no_effects, is_standby_snapshot_trigger}
use bf_multiraft.Core.Decimal.{to_string, dir_name}
use bf_multiraft.Catalog.{CatalogEntry, SnapshotCatalog, Params, Disk, latest, read, write}

-- What the bridge takes from openraft: log ids, with the one it builds from a term and an index for
-- node 0, and memberships.
pub record SmTypes : Type 1 where
  pub LogId : Type 0
  pub index : LogId → ℕ
  pub term : LogId → ℕ
  pub new_log_id : ℕ → ℕ → LogId
  -- `committed_leader_id()` as text.
  pub leader_text : LogId → Bytes
  pub Membership : Type 0
  pub StoredMembership : Type 0
  pub default_membership : StoredMembership
  pub new_membership : Option LogId → Membership → StoredMembership

module _ (T : SmTypes) where
  pub data EntryPayload : Type 0 where
    blank : EntryPayload
    normal : Request → EntryPayload
    membership : T.Membership → EntryPayload

  pub record Entry : Type 0 where
    pub log_id : T.LogId
    pub payload : EntryPayload

  -- An item of the stream of committed entries: an entry, and whether a caller awaits the response.
  abbrev pub Item : Type 0
  Item = IoResult (Entry × Bool)

  pub record SnapshotMeta : Type 0 where
    pub last_log_id : Option T.LogId
    pub last_membership : T.StoredMembership
    pub snapshot_id : Bytes

  pub record StoredSnapshot : Type 0 where
    pub snapshot_meta : SnapshotMeta
    pub snapshot_data : Bytes

  pub record StateMachineStoreInner (M : StateMachine) : Type 0 where
    pub group_id : ℕ
    pub last_applied_log : Option T.LogId
    pub last_membership : T.StoredMembership
    pub fsm : M.State
    pub snapshot_idx : ℕ
    pub current_snapshot : Option StoredSnapshot

  -- The callback of a trigger is seen in the calls that `apply` reports.
  pub record SmOptions : Type 0 where
    pub allow_hot_build : Bool
    pub catalog : Option SnapshotCatalog
    pub has_trigger : Bool

  -- A call of the trigger: group, index and term.
  abbrev pub Trigger : Type 0
  Trigger = ℕ × ℕ × ℕ

  -- What an `apply` leaves: the responses that were sent, in order, and the calls of the trigger.
  pub record Applied (M : StateMachine) : Type 0 where
    pub result : IoResult (Unit {0})
    pub inner : StateMachineStoreInner M
    pub sent : List Response
    pub triggers : List Trigger

  -- What another method leaves.
  pub record After (M : StateMachine) (A : Type 0) : Type 0 where
    pub result : IoResult A
    pub inner : StateMachineStoreInner M
    pub env : Env Disk

-- The `map_err` of the results of the state machine.
abbrev pub map_err : {E A : Type 0} → IoError → Result E A → IoResult A
map_err e (Fsm.ok a) = ok a
map_err e (Fsm.err _) = err e

module _ (T : SmTypes) (M : StateMachine) where
  abbrev Inner : Type 0
  Inner = StateMachineStoreInner T M

  unfoldable pub new_inner : ℕ → M.State → Inner
  new_inner group_id fsm = record {
    group_id = group_id;
    last_applied_log = none;
    last_membership = T.default_membership;
    fsm = fsm;
    snapshot_idx = 0;
    current_snapshot = none;
  }

  abbrev pub respond : ApplyOut → Response
  respond out = record { effects = out.effects }

  abbrev pub map_ok : IoResult ApplyOut → IoResult Response
  map_ok (ok out) = ok (respond out)
  map_ok (err e) = err e

  abbrev one_if : Bool → Trigger T → List (Trigger T)
  one_if true t = t ∷ []
  one_if false t = []

  -- The response to one entry, whose log id has been recorded, with the triggers that it adds.
  unfoldable pub respond_to :
      Bool → T.LogId → EntryPayload T → Inner → IoResult Response × Inner × List (Trigger T)
  respond_to has_trigger id blank s = (ok no_effects, s, [])
  respond_to has_trigger id (normal req) s =
      if is_standby_snapshot_trigger req.payload
      then (ok no_effects, s, one_if has_trigger (s.group_id, T.index id, T.term id))
      else let (out, fsm) = M.apply s.group_id (T.index id) req.payload s.fsm in
        (map_ok (map_err IoError.other out), record s { fsm = fsm }, [])
  respond_to has_trigger id (membership mem) s =
      (ok no_effects, record s { last_membership = T.new_membership (some id) mem }, [])

  abbrev pub record_applied : T.LogId → Inner → Inner
  record_applied id s = record s { last_applied_log = some id }

  abbrev pub one_response : Bool → Response → List Response
  one_response true r = r ∷ []
  one_response false r = []

  -- The rest of the loop after one entry.
  abbrev pub after_entry :
      Bool → IoResult Response × Inner × List (Trigger T) → (Inner → Applied T M) → Applied T M
  after_entry responder (err e, s, ts) rest = record {
    result = err e;
    inner = s;
    sent = [];
    triggers = ts;
  }
  after_entry responder (ok r, s, ts) rest =
      let done = rest s in
      record {
        result = done.result;
        inner = done.inner;
        sent = one_response responder r ++ done.sent;
        triggers = ts ++ done.triggers;
      }

  -- The loop over the stream; `triggers` are the pending ones.
  unfoldable pub apply_entries : Bool → List (Item T) → Inner → Applied T M
  apply_entries has_trigger [] s = record { result = ok tt; inner = s; sent = []; triggers = [] }
  apply_entries has_trigger (err e ∷ items) s = record {
    result = err e;
    inner = s;
    sent = [];
    triggers = [];
  }
  apply_entries has_trigger (ok (entry, responder) ∷ items) s =
      after_entry responder
        (respond_to has_trigger entry.log_id entry.payload (record_applied entry.log_id s))
        (apply_entries has_trigger items)

  abbrev pub called : IoResult (Unit {0}) → List (Trigger T) → List (Trigger T)
  called (ok _) ts = ts
  called (err _) ts = []

  -- The pending triggers are called once the loop is through without an error.
  unfoldable pub apply : SmOptions T → List (Item T) → Inner → Applied T M
  apply opts items s =
      let done = apply_entries opts.has_trigger items s in
      record {
        result = done.result;
        inner = done.inner;
        sent = done.sent;
        triggers = called done.result done.triggers;
      }

  unfoldable pub applied_state : Inner → Option T.LogId × T.StoredMembership
  applied_state s = (s.last_applied_log, s.last_membership)

  unfoldable pub next_snapshot_idx : Inner → ℕ
  next_snapshot_idx s = (s.snapshot_idx + 1) % 2 ^ 64

  -- `{leader}-{index}-{snapshot_idx}`, or `--{snapshot_idx}` if nothing was applied.
  abbrev pub built_id : Option T.LogId → ℕ → Bytes
  built_id none idx = 45 ∷ 45 ∷ to_string idx
  built_id (some last) idx = T.leader_text last ++ (45 ∷ dir_name (T.index last) idx)

  abbrev pub snapshot_at : ℕ → ℕ → T.StoredMembership → Bytes → Bytes → StoredSnapshot T
  snapshot_at term index mem id bytes = record {
    snapshot_meta = record {
      last_log_id = some (T.new_log_id term index);
      last_membership = mem;
      snapshot_id = id;
    };
    snapshot_data = bytes;
  }

  abbrev pub after : {A : Type 0} → Inner → (IoResult A × Env Disk) → After T M A
  after s r = record { result = r.0; inner = s; env = r.1 }

  module _ (p : Params) where
    abbrev pub with_data : CatalogEntry → Option Bytes → Option (StoredSnapshot T)
    with_data entry none = none
    with_data entry (some bytes) =
        some (
          snapshot_at entry.last_term entry.last_index T.default_membership entry.snapshot_id bytes)

    abbrev pub read_latest : ℕ → Option CatalogEntry → Io Disk (Option (StoredSnapshot T))
    read_latest group none = pure none
    read_latest group (some entry) = do
      found ← read p group entry.snapshot_id
      pure (with_data entry found)

    unfoldable pub snapshot_from_catalog :
        Option SnapshotCatalog → ℕ → Io Disk (Option (StoredSnapshot T))
    snapshot_from_catalog none group = pure none
    snapshot_from_catalog (some catalog) group = do found ← latest p group; read_latest group found

    abbrev or_not_found : Option (StoredSnapshot T) → Io Disk (StoredSnapshot T)
    or_not_found none = lift (err IoError.not_found)
    or_not_found (some snap) = pure snap

    -- The branch that never freezes the state machine.
    abbrev serve_stored : SmOptions T → Option (StoredSnapshot T) → ℕ → Io Disk (StoredSnapshot T)
    serve_stored opts (some snap) group = pure snap
    serve_stored opts none group = do
      found ← snapshot_from_catalog opts.catalog group
      or_not_found found

    abbrev pub built : Inner → Bytes → StoredSnapshot T
    built s bytes = record {
      snapshot_meta = record {
        last_log_id = s.last_applied_log;
        last_membership = s.last_membership;
        snapshot_id = built_id s.last_applied_log (next_snapshot_idx s);
      };
      snapshot_data = bytes;
    }

    abbrev pub build_from : Inner → Env Disk → IoResult Bytes → After T M (StoredSnapshot T)
    build_from s w (err e) = record { result = err e; inner = s; env = w }
    build_from s w (ok bytes) = record {
      result = ok (built s bytes);
      inner = record s {
        snapshot_idx = next_snapshot_idx s;
        current_snapshot = some (built s bytes);
      };
      env = w;
    }

    unfoldable pub build_snapshot : SmOptions T → Inner → Env Disk → After T M (StoredSnapshot T)
    build_snapshot opts s w =
        if opts.allow_hot_build
        then build_from s w (map_err IoError.other (M.freeze_for_snapshot s.group_id s.fsm))
        else after s (serve_stored opts s.current_snapshot s.group_id w)

    abbrev pub discard : {A : Type 0} → IoResult A → IoResult (Unit {0})
    discard (ok _) = ok tt
    discard (err e) = err e

    abbrev pub write_if : Option SnapshotCatalog → ℕ → ℕ → ℕ → Bytes → Bytes → Io Disk (Unit {0})
    write_if none group index term id bytes w = (ok tt, w)
    write_if (some catalog) group index term id bytes w =
        let (r, w') = write p catalog group index term id bytes w in (discard r, w')

    -- The state that a snapshot leaves, once it is restored.
    abbrev pub installed : StoredSnapshot T → M.State → Inner → Inner
    installed snap fsm s = record s {
      last_applied_log = snap.snapshot_meta.last_log_id;
      last_membership = snap.snapshot_meta.last_membership;
      fsm = fsm;
      current_snapshot = some snap;
    }

    abbrev pub restored :
        StoredSnapshot T
        → Result M.Error (Unit {0}) × M.State
        → Inner
        → Io Disk (Unit {0})
        → Env Disk
        → After T M (Unit {0})
    restored snap (Fsm.ok _, fsm) s save w = after (installed snap fsm s) (save w)
    restored snap (Fsm.err _, fsm) s save w = record {
      result = err invalid_data;
      inner = record s { fsm = fsm };
      env = w;
    }

    -- Restores the data of a snapshot, then saves it.
    abbrev pub install :
        StoredSnapshot T → Io Disk (Unit {0}) → Inner → Env Disk → After T M (Unit {0})
    install snap save s w = restored snap (M.restore s.group_id snap.snapshot_data s.fsm) s save w

    -- Index and term under which a snapshot is saved.
    abbrev position : Option T.LogId → ℕ × ℕ
    position none = (0, 0)
    position (some id) = (T.index id, T.term id)

    unfoldable pub install_snapshot :
        SmOptions T → StoredSnapshot T → Inner → Env Disk → After T M (Unit {0})
    install_snapshot opts snap s =
        let (last_index, last_term) = position snap.snapshot_meta.last_log_id in
        install snap
          (write_if opts.catalog s.group_id last_index last_term snap.snapshot_meta.snapshot_id
            snap.snapshot_data)
          s

    unfoldable pub install_durable_snapshot :
        SmOptions T → ℕ → ℕ → Bytes → Inner → Env Disk → After T M (Unit {0})
    install_durable_snapshot opts last_index last_term bytes s =
        let id = dir_name last_index last_term in
        install (snapshot_at last_term last_index T.default_membership id bytes)
          (write_if opts.catalog s.group_id last_index last_term id bytes) s

    unfoldable pub get_current_snapshot : SmOptions T → Inner → Io Disk (Option (StoredSnapshot T))
    get_current_snapshot opts s w = elim s.current_snapshot [
      | some snap ↦ (ok (some snap), w)
      | none ↦ snapshot_from_catalog opts.catalog s.group_id w
    ]

    -- The second lock of `build_standby_snapshot_async`, on the state as other tasks left it.
    abbrev pub publish : ℕ → ℕ → Bytes → CatalogEntry → Inner → Inner
    publish index term bytes entry s = record s {
      current_snapshot = some (snapshot_at term index s.last_membership entry.snapshot_id bytes);
    }

    abbrev pub published :
        ℕ → ℕ → Bytes → Inner → IoResult CatalogEntry × Env Disk → After T M CatalogEntry
    published index term bytes s (err e, w) = record { result = err e; inner = s; env = w }
    published index term bytes s (ok entry, w) = record {
      result = ok entry;
      inner = publish index term bytes entry s;
      env = w;
    }

    abbrev pub standby_from :
        SnapshotCatalog
        → ℕ
        → ℕ
        → ℕ
        → (Inner → Inner)
        → IoResult Bytes
        → Inner
        → Env Disk
        → After T M CatalogEntry
    standby_from catalog group index term meanwhile (err e) s w = record {
      result = err e;
      inner = s;
      env = w;
    }
    standby_from catalog group index term meanwhile (ok bytes) s w =
        published index term bytes (meanwhile s)
          (write p catalog group index term (dir_name index term) bytes w)

    -- `meanwhile` is what other tasks do to the state while the snapshot is written.
    unfoldable pub build_standby_snapshot_async :
        SnapshotCatalog → ℕ → ℕ → ℕ → (Inner → Inner) → Inner → Env Disk → After T M CatalogEntry
    build_standby_snapshot_async catalog group index term meanwhile s w =
        standby_from catalog group index term meanwhile
          (map_err IoError.other (M.freeze_for_snapshot group s.fsm)) s w
