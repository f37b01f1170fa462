-- ===== src/Demo/Snapshots.antt =====
-- crates/multiraft-demo/src/main.rs: the requests for snapshots, and for their advertisements.
pub mod Served
use bf_multiraft.Base.{ℕ, Option, none, some, List, [], ◌∷◌, Bytes, length}
use bf_multiraft.Io.{IoResult, Io, Env}
use bf_multiraft.Io
use bf_multiraft.Codec.{TotalCodec}
use bf_multiraft.Fsm.{Result, ok, err}
use bf_multiraft.Fsm.Counter.{CounterFsm}
use bf_multiraft.Core.{SnapshotAdvertisement}
use bf_multiraft.Catalog.{CatalogEntry, SnapshotCatalog, Params, latest, read}
use bf_multiraft.Catalog
use bf_multiraft.Facade.Requests.{RaftApi}
use bf_multiraft.Facade.Runtime.{AdsFile, Ads, SnapshotRuntime, record_snapshot_ad}
use bf_multiraft.Demo.Nodes.{Status, not_found, service_unavailable, Node}

pub record SnapshotLatestMeta : Type 0 where
  pub group : ℕ
  pub last_index : ℕ
  pub last_term : ℕ
  pub snapshot_id : Bytes
  pub size : ℕ
  pub sha256_hex : Bytes

abbrev pub meta_of : CatalogEntry → SnapshotLatestMeta
meta_of entry = record {
  group = entry.group;
  last_index = entry.last_index;
  last_term = entry.last_term;
  snapshot_id = entry.snapshot_id;
  size = entry.size;
  sha256_hex = entry.sha256_hex;
}

-- The answer: the meta, which goes into a header, and the data.
abbrev pub Served : Type 0
Served = SnapshotLatestMeta × Bytes

abbrev pub to_status : CatalogEntry → IoResult (Option Bytes) → Result Status Served
to_status entry (Io.ok (some bytes)) = ok (meta_of entry, bytes)
to_status entry (Io.ok none) = err not_found
to_status entry (Io.err e) = err not_found

-- `.ok().flatten()`, and then the read.
abbrev pub read_latest :
    Params
    → ℕ
    → IoResult (Option CatalogEntry)
    → Env Catalog.Disk
    → Result Status Served × Env Catalog.Disk
read_latest p id (Io.err e) w = (err not_found, w)
read_latest p id (Io.ok none) w = (err not_found, w)
read_latest p id (Io.ok (some entry)) w =
    let (r, w') = read p id entry.snapshot_id w in (to_status entry r, w')

abbrev pub serve :
    Params → ℕ → Option SnapshotCatalog → Env Catalog.Disk → Result Status Served × Env Catalog.Disk
serve p id none w = (err not_found, w)
serve p id (some catalog) w = let (r, w') = latest p id w in read_latest p id r w'

module _ (A : RaftApi CounterFsm) (p : Params) (json : TotalCodec Ads) where
  -- The disk is that of the first node's catalog.
  unfoldable pub snapshot_latest :
      ℕ → List (Node A) → Env Catalog.Disk → Result Status Served × Env Catalog.Disk
  snapshot_latest id [] w = (err service_unavailable, w)
  snapshot_latest id (n ∷ ns) w = serve p id n.runtime.catalog w

  -- The file is that of the first node's advertisements. The result is whether the answer is 200.
  unfoldable pub admin_post_snapshot_ad :
      SnapshotAdvertisement
      → List (Node A)
      → Env AdsFile
      → Result Status (Unit {0}) × List (Node A) × Env AdsFile × Ads
  admin_post_snapshot_ad ad [] v = (err service_unavailable, [], v, [])
  admin_post_snapshot_ad ad (n ∷ ns) v =
      let (rt, v', calls) = record_snapshot_ad json ad n.runtime v in
      (ok tt, record n { runtime = rt } ∷ ns, v', calls)

  unfoldable pub admin_get_snapshot_ads : List (Node A) → Ads
  admin_get_snapshot_ads [] = []
  admin_get_snapshot_ads (n ∷ ns) = n.runtime.ads
