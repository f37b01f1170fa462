-- ===== src/Bridge/Snapshots.antt =====
-- What the snapshot methods promise: which data a store serves, and under which log id.
use bf_multiraft.Base.{
  ℕ, ◌≡◌, refl, sym, ap, subst, ◌∙◌, false, Option, none, some, List, Bytes, of_some,
}
use bf_multiraft.Io.{Io, ok, err, invalid_data, Env, bind-ok, pure}
use bf_multiraft.Fsm.{Result, StateMachine}
use bf_multiraft.Fsm
use bf_multiraft.Catalog.{CatalogEntry, SnapshotCatalog, Params, Disk, list, latest, read}
use bf_multiraft.Catalog.Lookups.{IsLatest, latest-IsLatest}
use bf_multiraft.Catalog.Reading.{IsRead, latest-Reads, read-IsRead}
use bf_multiraft.Bridge.{
  SmTypes, StoredSnapshot, SmOptions, StateMachineStoreInner, applied_state, build_snapshot,
  install_snapshot, get_current_snapshot, snapshot_from_catalog, read_latest, restored, installed,
  with_data,
}

module _ (T : SmTypes) (M : StateMachine) (p : Params) where
  -- Where hot builds are not allowed, the snapshot that is built does not depend on the state
  -- machine, and building it changes nothing in the store.
  pub build_snapshot-offload :
      (o : SmOptions T) (s : StateMachineStoreInner T M) (fsm : M.State) (w : Env Disk)
      → o.allow_hot_build ≡ false
      → ((build_snapshot T M p o (record s { fsm = fsm }) w).result
          ≡ (build_snapshot T M p o s w).result)
        × ((build_snapshot T M p o s w).inner ≡ s)
  unfolding build_snapshot
  build_snapshot-offload o s fsm w h = rw h (refl, refl)

  pub restored-ok :
      (snap : StoredSnapshot T) (x : Result M.Error (Unit {0}) × M.State)
      (s : StateMachineStoreInner T M) (save : Io Disk (Unit {0})) (w : Env Disk)
      → (restored T M p snap x s save w).result ≡ ok tt
      → (restored T M p snap x s save w).inner ≡ installed T M p snap x.1 s
  restored-ok snap (Fsm.ok u, fsm) s save w h = refl
  restored-ok snap (Fsm.err e, fsm) s save w h = cc

  -- A snapshot whose installation returns `Ok` is the one that the store then serves, and its log
  -- id and membership are those that the store reports as applied.
  pub install_snapshot-get :
      (o : SmOptions T) (snap : StoredSnapshot T) (s : StateMachineStoreInner T M) (w w' : Env Disk)
      → (install_snapshot T M p o snap s w).result ≡ ok tt
      → (get_current_snapshot T M p o (install_snapshot T M p o snap s w).inner w'
          ≡ (ok (some snap), w'))
        × (applied_state T M (install_snapshot T M p o snap s w).inner
            ≡ (snap.snapshot_meta.last_log_id, snap.snapshot_meta.last_membership))
  unfolding install_snapshot get_current_snapshot applied_state
  install_snapshot-get o snap s w w' h =
      let x = M.restore s.group_id snap.snapshot_data s.fsm in
      subst
        (λ i.
          (get_current_snapshot T M p o i w' ≡ (ok (some snap), w'))
          × (applied_state T M i
              ≡ (snap.snapshot_meta.last_log_id, snap.snapshot_meta.last_membership)))
        (sym (restored-ok snap x s _ w h)) (refl, refl)

  restored-err :
      (snap : StoredSnapshot T) (x : Result M.Error (Unit {0}) × M.State) (e : M.Error)
      (s : StateMachineStoreInner T M) (save : Io Disk (Unit {0})) (w : Env Disk)
      → x.0 ≡ Fsm.err e
      → restored T M p snap x s save w
        ≡ record { result = err invalid_data; inner = record s { fsm = x.1 }; env = w }
  restored-err snap (Fsm.ok u, fsm) e s save w h = cc
  restored-err snap (Fsm.err e', fsm) e s save w h = refl

  -- If the state machine rejects the data of a snapshot, then nothing of it is recorded: not in the
  -- store but for what the state machine itself did, and not in the catalog.
  pub install_snapshot-rejected :
      (o : SmOptions T) (snap : StoredSnapshot T) (s : StateMachineStoreInner T M) (w : Env Disk)
      (e : M.Error)
      → (M.restore s.group_id snap.snapshot_data s.fsm).0 ≡ Fsm.err e
      → install_snapshot T M p o snap s w ≡ record {
        result = err invalid_data;
        inner = record s { fsm = (M.restore s.group_id snap.snapshot_data s.fsm).1 };
        env = w;
      }
  unfolding install_snapshot
  install_snapshot-rejected o snap s w e h = restored-err snap _ e s _ w h

  -- A snapshot from the catalog, with the entries it came from.
  pub record FromCatalog (group : ℕ) (w : Env Disk) (snap : StoredSnapshot T) : Type 0 where
    pub entries : List CatalogEntry
    pub newest : CatalogEntry
    pub entries_listed : (list p group w).0 ≡ ok entries
    pub newest_latest : IsLatest p newest entries
    pub labelled :
        snap.snapshot_meta.last_log_id ≡ some (T.new_log_id newest.last_term newest.last_index)
    pub disk_eq : (latest p group w).1.disk ≡ w.disk
    pub data_read : IsRead p group newest.snapshot_id (latest p group w).1 snap.snapshot_data

  with_data-some :
      (e : CatalogEntry) (found : Option Bytes) (snap : StoredSnapshot T)
      → with_data T M p e found ≡ some snap
      → (found ≡ some snap.snapshot_data)
        × (snap.snapshot_meta.last_log_id ≡ some (T.new_log_id e.last_term e.last_index))
  with_data-some e none snap h = cc
  with_data-some e (some bytes) snap h =
      of_some
        (λ x.
          (some bytes ≡ some x.snapshot_data)
          × (x.snapshot_meta.last_log_id ≡ some (T.new_log_id e.last_term e.last_index)))
        h (refl, refl)

  read_latest-some :
      (group : ℕ) (e : CatalogEntry) (w : Env Disk) (snap : StoredSnapshot T)
      → (read_latest T M p group (some e) w).0 ≡ ok (some snap)
      → ((read p group e.snapshot_id w).0 ≡ ok (some snap.snapshot_data))
        × (snap.snapshot_meta.last_log_id ≡ some (T.new_log_id e.last_term e.last_index))
  read_latest-some group e w snap h =
      let (found, r, k) =
        bind-ok (read p group e.snapshot_id) (λ f. pure (with_data T M p e f)) w (some snap) h in
      let (f, l) = with_data-some e found snap cc in (r ∙ ap (λ x. ok x) f, l)

  found-FromCatalog :
      (group : ℕ) (o : Option CatalogEntry) (w : Env Disk) (snap : StoredSnapshot T)
      → (latest p group w).0 ≡ ok o
      → (read_latest T M p group o (latest p group w).1).0 ≡ ok (some snap)
      → FromCatalog group w snap
  found-FromCatalog group none w snap l h = cc
  found-FromCatalog group (some e) w snap l h =
      let (entries, r, n) = latest-IsLatest p group w e l in
      let (d, label) = read_latest-some group e (latest p group w).1 snap h in
      record {
        entries = entries;
        newest = e;
        entries_listed = r;
        newest_latest = n;
        labelled = label;
        disk_eq = latest-Reads p group w;
        data_read = read-IsRead p group e.snapshot_id (latest p group w).1 snap.snapshot_data d;
      }

  from_catalog :
      (c : Option SnapshotCatalog) (group : ℕ) (w : Env Disk) (snap : StoredSnapshot T)
      → (snapshot_from_catalog T M p c group w).0 ≡ ok (some snap)
      → FromCatalog group w snap
  unfolding snapshot_from_catalog
  from_catalog none group w snap h = cc
  from_catalog (some c) group w snap h =
      let (o, l, k) = bind-ok (latest p group) (read_latest T M p group) w (some snap) h in
      found-FromCatalog group o w snap l k

  served :
      (o : SmOptions T) (s : StateMachineStoreInner T M) (w : Env Disk)
      → s.current_snapshot ≡ none
      → get_current_snapshot T M p o s w ≡ snapshot_from_catalog T M p o.catalog s.group_id w
  unfolding get_current_snapshot
  served o s w n = rw n refl

  -- A snapshot that a store without a stored one serves from its catalog, under any faults of its
  -- disk, has the index and term of the greatest entry that was listed for its group; its data is
  -- what the data file holds of the first entry listed after that under the id of that greatest
  -- entry, on the same disk, and has the digest that the meta file of that first entry records.
  pub get_current_snapshot-FromCatalog :
      (o : SmOptions T) (s : StateMachineStoreInner T M) (w : Env Disk) (snap : StoredSnapshot T)
      → s.current_snapshot ≡ none
      → (get_current_snapshot T M p o s w).0 ≡ ok (some snap)
      → FromCatalog s.group_id w snap
  get_current_snapshot-FromCatalog o s w snap n h =
      from_catalog o.catalog s.group_id w snap (sym (ap (λ r. r.0) (served o s w n)) ∙ h)
