-- ===== src/Facade/Spawn/Advertise.antt =====
-- What a standby leaves once it has taken a snapshot for a trigger.
use bf_multiraft.Base.{
  ℕ, ◌≡◌, refl, sym, ap, ◌∙◌, subst, ◌⊎◌, inl, inr, some, [], ◌∷◌, Bytes, length, if◌then◌else◌,
}
use bf_multiraft.Io.{IoResult, IoError, Env}
use bf_multiraft.Io
use bf_multiraft.Codec.{TotalCodec}
use bf_multiraft.Fsm.{Result, StateMachine}
use bf_multiraft.Fsm
use bf_multiraft.Core.{SnapshotAdvertisement}
use bf_multiraft.Core.Decimal.{dir_name}
use bf_multiraft.Catalog.{CatalogEntry, SnapshotCatalog, Params, hex_sha256, write}
use bf_multiraft.Catalog
use bf_multiraft.Catalog.Written.{written, write-written}
use bf_multiraft.Bridge.{
  SmTypes, StateMachineStoreInner, snapshot_at, build_standby_snapshot_async, standby_from, map_err,
  published,
}
use bf_multiraft.Facade.Ads.{replaced, record_ad-replaced}
use bf_multiraft.Facade.Runtime.{AdsFile, Ads, SnapshotRuntime, record_snapshot_ad}
use bf_multiraft.Facade.Spawn.{fetch_url, Triggered, on_standby_trigger, advertised}

module _ (T : SmTypes) (M : StateMachine) (p : Params) (json : TotalCodec Ads)
    (catalog : SnapshotCatalog) (gid index term : ℕ)
    (meanwhile : StateMachineStoreInner T M → StateMachineStoreInner T M)
    (s : StateMachineStoreInner T M) (rt : SnapshotRuntime) where
  -- The advertisement of a snapshot of the bytes, taken for the trigger.
  abbrev pub ad_for : Bytes → SnapshotAdvertisement
  ad_for bytes = record {
    group = gid;
    last_index = index;
    last_term = term;
    snapshot_id = dir_name index term;
    size = length bytes;
    sha256_hex = hex_sha256 p bytes;
    fetch_url = fetch_url rt.admin_advertise_addr gid;
  }

  -- Why no snapshot was taken: the state machine could not be frozen, or its bytes not written.
  abbrev pub NotTaken : Env Catalog.Disk → Type 0
  NotTaken w =
      ((e : M.Error) × (M.freeze_for_snapshot gid s.fsm ≡ Fsm.err e))
      ⊎ ((bytes : Bytes) × (e : IoError) × (M.freeze_for_snapshot gid s.fsm ≡ Fsm.ok bytes)
          × ((write p catalog gid index term (dir_name index term) bytes w).0 ≡ Io.err e))

  -- The snapshot of those bytes is in the catalog and in the store, and is advertised.
  pub record Taken (w : Env Catalog.Disk) (t : Triggered T M p json) : Type 0 where
    pub bytes : Bytes
    pub frozen : M.freeze_for_snapshot gid s.fsm ≡ Fsm.ok bytes
    pub saved :
        (write p catalog gid index term (dir_name index term) bytes w).0
        ≡ Io.ok (written p catalog gid index term (dir_name index term) bytes)
    pub stored :
        t.inner.current_snapshot
        ≡ some
            (snapshot_at T M term index (meanwhile s).last_membership (dir_name index term) bytes)
    pub listed : t.runtime.ads ≡ replaced (ad_for bytes) rt.ads
    pub told : t.calls ≡ (if rt.has_callback then ad_for bytes ∷ [] else [])

  abbrev pub Advertises : Env Catalog.Disk → Triggered T M p json → Type 0
  Advertises w t = (NotTaken w × (t.runtime ≡ rt) × (t.calls ≡ [])) ⊎ Taken w t

  taken :
      (v : Env AdsFile) (w : Env Catalog.Disk) (bytes : Bytes)
      (r : IoResult CatalogEntry × Env Catalog.Disk)
      → M.freeze_for_snapshot gid s.fsm ≡ Fsm.ok bytes
      → write p catalog gid index term (dir_name index term) bytes w ≡ r
      → let a = published T M p index term bytes (meanwhile s) r in
        Advertises w (advertised T M p json gid rt v a a.result)
  unfolding record_snapshot_ad
  taken v w bytes (Io.err e, w') h k = inl (inr (bytes, e, h, ap (λ x. x.0) k), refl, refl)
  taken v w bytes (Io.ok e, w') h k =
      let q =
        write-written p catalog gid index term (dir_name index term) bytes w e (ap (λ x. x.0) k) in
      subst
        (λ (x : CatalogEntry). Advertises w (
          advertised T M p json gid rt v
            (published T M p index term bytes (meanwhile s) (Io.ok x, w')) (Io.ok x)))
        (sym q)
        (inr (record {
          bytes = bytes;
          frozen = h;
          saved = ap (λ x. x.0) k ∙ ap (λ x. Io.ok x) q;
          stored = refl;
          listed = record_ad-replaced (ad_for bytes) rt.ads;
          told = refl;
        }))

  frozen-Advertises :
      (v : Env AdsFile) (w : Env Catalog.Disk) (r : Result M.Error Bytes)
      → M.freeze_for_snapshot gid s.fsm ≡ r
      → let a = standby_from T M p catalog gid index term meanwhile (map_err IoError.other r) s w in
        Advertises w (advertised T M p json gid rt v a a.result)
  frozen-Advertises v w (Fsm.err e) h = inl (inl (e, h), refl, refl)
  frozen-Advertises v w (Fsm.ok bytes) h =
      taken v w bytes (write p catalog gid index term (dir_name index term) bytes w) h refl

  -- For a trigger a standby that cannot freeze its state machine, or not write the bytes,
  -- advertises nothing. Any other has written these bytes, as its state machine was when the task
  -- began, with the index and the term of the trigger; it serves them as its snapshot, lists their
  -- advertisement, with their size and digest, last and in place of one for the same group and id,
  -- and gives it to the callback, if there is one.
  pub on_standby_trigger-Advertises :
      (w : Env Catalog.Disk) (v : Env AdsFile)
      → Advertises w (on_standby_trigger T M p json catalog gid index term meanwhile s rt w v)
  unfolding on_standby_trigger build_standby_snapshot_async
  on_standby_trigger-Advertises w v = frozen-Advertises v w (M.freeze_for_snapshot gid s.fsm) refl
