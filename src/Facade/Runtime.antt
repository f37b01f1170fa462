-- ===== src/Facade/Runtime.antt =====
-- crates/multiraft-net/src/multiraft.rs: what a node keeps of its snapshots, with the file
-- `snapshot_ads.json` below its data directory. A disk is what that file holds, if it is there.
pub mod Reload
use bf_multiraft.Base.{
  ℕ, Bool, true, false, not, ◌&&◌, Option, none, some, List, [], ◌∷◌, Bytes, if◌then◌else◌,
}
use bf_multiraft.Io.{IoResult, ok, err, Env, attempt, observe}
use bf_multiraft.Codec.{TotalCodec}
use bf_multiraft.Core.{
  ClusterConfig, SnapshotMode, disabled, standby_offload, SocketAddr, SnapshotAdvertisement,
}
use bf_multiraft.Catalog.{CatalogEntry, SnapshotCatalog, Params}
use bf_multiraft.Catalog
use bf_multiraft.Facade.{record_ad}

abbrev pub AdsFile : Type 0
AdsFile = Option Bytes

abbrev pub Ads : Type 0
Ads = List SnapshotAdvertisement

pub record SnapshotRuntime : Type 0 where
  pub catalog : Option SnapshotCatalog
  pub ads : Ads
  pub data_dir : Bytes
  pub admin_advertise_addr : Option SocketAddr
  pub has_callback : Bool

abbrev pub is_empty_path : Bytes → Bool
is_empty_path [] = true
is_empty_path (b ∷ bs) = false

abbrev pub offloads : SnapshotMode → Bool
offloads standby_offload = true
offloads disabled = false

abbrev pub catalog_for : ClusterConfig → Option SnapshotCatalog
catalog_for config =
    if offloads config.snapshot_mode && not (is_empty_path config.data_dir)
    then some (Catalog.new config.snapshot_keep)
    else none

-- `MultiRaft::on_snapshot_ready`, which replaces a callback that was there.
unfoldable pub on_snapshot_ready : SnapshotRuntime → SnapshotRuntime
on_snapshot_ready rt = record rt { has_callback = true }

unfoldable pub snapshot_ads : SnapshotRuntime → Ads
snapshot_ads rt = rt.ads

abbrev found : IoResult (Option CatalogEntry) → Option CatalogEntry
found (err e) = none
found (ok entry) = entry

-- The entry, if the catalog is there and can be read.
unfoldable pub latest_catalog_entry :
    Params → ℕ → SnapshotRuntime → Env Catalog.Disk → Option CatalogEntry
latest_catalog_entry p group rt w = elim rt.catalog [
  | none ↦ none
  | some c ↦ found (Catalog.latest p group w).0
]

-- serde_json for a list of advertisements, which are texts and numbers.
module _ (json : TotalCodec Ads) where
  abbrev pub or_no_ads : Option Ads → Ads
  or_no_ads none = []
  or_no_ads (some ads) = ads

  -- A file that is missing, cannot be read or does not parse counts as an empty list.
  abbrev pub parsed : IoResult AdsFile → Ads
  parsed (err e) = []
  parsed (ok none) = []
  parsed (ok (some bytes)) = or_no_ads (json.from_slice bytes)

  unfoldable pub load_ads : Bytes → Env AdsFile → Ads × Env AdsFile
  load_ads data_dir w =
      if is_empty_path data_dir
      then ([], w)
      else let (r, w') = observe (λ file. file) w in (parsed r, w')

  unfoldable pub new : ClusterConfig → Env AdsFile → SnapshotRuntime × Env AdsFile
  new config w =
      let (ads, w') = load_ads config.data_dir w in
      (
        record {
          catalog = catalog_for config;
          ads = ads;
          data_dir = config.data_dir;
          admin_advertise_addr = config.admin_advertise_addr;
          has_callback = false;
        },
        w',
      )

  -- `fs::write` truncates the file before it writes; a failure may leave any part of the text in
  -- it.
  abbrev left_by : Option Bytes → AdsFile → AdsFile
  left_by none file = file
  left_by (some bytes) file = some bytes

  unfoldable pub persist_ads : SnapshotRuntime → Env AdsFile → Env AdsFile
  persist_ads rt w =
      if is_empty_path rt.data_dir
      then w
      else (attempt (λ file. some (json.to_vec rt.ads)) left_by w).1

  -- `SnapshotRuntime::record_ad`: the runtime, its file and the calls of the callback.
  unfoldable pub record_snapshot_ad :
      SnapshotAdvertisement → SnapshotRuntime → Env AdsFile → SnapshotRuntime × Env AdsFile × Ads
  record_snapshot_ad ad rt w =
      let rt' : SnapshotRuntime = record rt { ads = record_ad ad rt.ads } in
      (rt', persist_ads rt' w, if rt.has_callback then ad ∷ [] else [])
