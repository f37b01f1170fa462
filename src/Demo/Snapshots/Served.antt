-- ===== src/Demo/Snapshots/Served.antt =====
-- Which snapshot a request for the latest one gets.
use bf_multiraft.Base.{ℕ, ◌≡◌, refl, Option, none, some, List, [], ◌∷◌, Bytes}
use bf_multiraft.Io.{IoResult, Env}
use bf_multiraft.Io
use bf_multiraft.Codec.{TotalCodec}
use bf_multiraft.Fsm.{Result, ok, err}
use bf_multiraft.Fsm.Counter.{CounterFsm}
use bf_multiraft.Catalog.{
  CatalogEntry, SnapshotCatalog, Params, list, latest, read, has_name, hex_sha256,
}
use bf_multiraft.Catalog
use bf_multiraft.Catalog.Lookups.{IsLatest, latest-IsLatest}
use bf_multiraft.Catalog.Reading.{IsRead, read-IsRead}
use bf_multiraft.Facade.Requests.{RaftApi}
use bf_multiraft.Facade.Runtime.{Ads}
use bf_multiraft.Demo.Nodes.{Status, Node}
use bf_multiraft.Demo.Snapshots.{Served, meta_of, to_status, read_latest, serve, snapshot_latest}

module _ (p : Params) (id : ℕ) where
  -- The meta is that of the latest entry of the catalog, and the data is read under its id.
  abbrev pub FromLatest : Env Catalog.Disk → Result Status Served → Type 0
  FromLatest w (err e) = Unit
  FromLatest w (ok (meta, bytes)) =
      (entries : List CatalogEntry) × (newest : CatalogEntry) × ((list p id w).0 ≡ Io.ok entries)
      × IsLatest p newest entries
      × (meta ≡ meta_of newest)
      × IsRead p id newest.snapshot_id (latest p id w).1 bytes

  to_status-FromLatest :
      (w : Env Catalog.Disk) (newest : CatalogEntry) (r : IoResult (Option Bytes))
      → (latest p id w).0 ≡ Io.ok (some newest)
      → (read p id newest.snapshot_id (latest p id w).1).0 ≡ r
      → FromLatest w (to_status newest r)
  to_status-FromLatest w newest (Io.ok (some bytes)) h k =
      let (entries, listed, is_latest) = latest-IsLatest p id w newest h in
      (
        entries,
        newest,
        listed,
        is_latest,
        refl,
        read-IsRead p id newest.snapshot_id (latest p id w).1 bytes k,
      )
  to_status-FromLatest w newest (Io.ok none) h k = tt
  to_status-FromLatest w newest (Io.err e) h k = tt

  read_latest-FromLatest :
      (w : Env Catalog.Disk) (r : IoResult (Option CatalogEntry))
      → (latest p id w).0 ≡ r
      → FromLatest w (read_latest p id r (latest p id w).1).0
  read_latest-FromLatest w (Io.err e) h = tt
  read_latest-FromLatest w (Io.ok none) h = tt
  read_latest-FromLatest w (Io.ok (some newest)) h =
      to_status-FromLatest w newest (read p id newest.snapshot_id (latest p id w).1).0 h refl

  serve-FromLatest :
      (c : Option SnapshotCatalog) (w : Env Catalog.Disk) → FromLatest w (serve p id c w).0
  serve-FromLatest none w = tt
  serve-FromLatest (some c) w = read_latest-FromLatest w (latest p id w).0 refl

  -- A snapshot that is served comes with the meta of the latest entry that the catalog lists, and
  -- its data is read under the id of that entry, with a digest that matches.
  pub snapshot_latest-FromLatest :
      (A : RaftApi CounterFsm) (json : TotalCodec Ads) (nodes : List (Node A))
      (w : Env Catalog.Disk)
      → FromLatest w (snapshot_latest A p json id nodes w).0
  unfolding snapshot_latest
  snapshot_latest-FromLatest A json [] w = tt
  snapshot_latest-FromLatest A json (n ∷ ns) w = serve-FromLatest n.runtime.catalog w
