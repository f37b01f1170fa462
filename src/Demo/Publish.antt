-- ===== src/Demo/Publish.antt =====
-- crates/multiraft-demo/src/main.rs: how a standby tells the voters of a snapshot. A process is
-- what it serves at its admin address.
pub mod Delivered
use bf_multiraft.Base.{
  ℕ, suc, Bytes, Bool, true, false, ◌&&◌, Option, none, some, List, [], ◌∷◌, map, bytes_eq, ◌==◌,
  if◌then◌else◌,
}
use bf_multiraft.Io.{Env}
use bf_multiraft.Codec.{Codec, TotalCodec}
use bf_multiraft.Fsm.{Result, ok, err}
use bf_multiraft.Fsm.Counter.{CounterFsm}
use bf_multiraft.Core.{SocketAddr, SnapshotAdvertisement}
use bf_multiraft.Catalog.{Params}
use bf_multiraft.Facade.Requests.{RaftApi}
use bf_multiraft.Facade.Runtime.{AdsFile, Ads}
use bf_multiraft.Demo.Nodes.{Node}
use bf_multiraft.Demo.Snapshots.{admin_post_snapshot_ad}

abbrev pub same_addr : SocketAddr → SocketAddr → Bool
same_addr a b = bytes_eq a.ip b.ip && (a.port == b.port)

-- `ad_json` is serde_json for an advertisement.
module _ (A : RaftApi CounterFsm) (p : Params) (json : TotalCodec Ads)
    (ad_json : Codec SnapshotAdvertisement) where
  pub record Process : Type 0 where
    pub addr : SocketAddr
    pub nodes : List (Node A)
    pub file : Env AdsFile

  -- The extractor `Json` in front of the handler: a body that does not parse is refused.
  abbrev pub parsed :
      Option SnapshotAdvertisement → List (Node A) → Env AdsFile → List (Node A) × Env AdsFile
  parsed none nodes file = (nodes, file)
  parsed (some ad) nodes file =
      let (r, left, file', calls) = admin_post_snapshot_ad A p json ad nodes file in (left, file')

  -- A process at the address handles the request, if all of it arrives; no one looks at its answer.
  unfoldable pub http_post_json : Bool → SocketAddr → Bytes → Process → Process
  http_post_json arrives addr body q =
      let (nodes, file) = parsed (ad_json.from_slice body) q.nodes q.file in
      if same_addr q.addr addr && arrives then record q { nodes = nodes; file = file } else q

  -- The loop over the voters, which goes on after a failure; `arrives` tells of the request that is
  -- sent in each round.
  unfoldable pub post_each : (ℕ → Bool) → List SocketAddr → Bytes → List Process → List Process
  post_each arrives [] body ps = ps
  post_each arrives (addr ∷ addrs) body ps =
      post_each (λ k. arrives (suc k)) addrs body (map (http_post_json (arrives 0) addr body) ps)

  abbrev pub sent :
      (ℕ → Bool)
      → List SocketAddr
      → Option Bytes
      → List Process
      → Result (Unit {0}) (Unit {0}) × List Process
  sent arrives addrs none ps = (err tt, ps)
  sent arrives addrs (some body) ps = (ok tt, post_each arrives addrs body ps)

  unfoldable pub publish_snapshot_ad :
      (ℕ → Bool)
      → List SocketAddr
      → SnapshotAdvertisement
      → List Process
      → Result (Unit {0}) (Unit {0}) × List Process
  publish_snapshot_ad arrives addrs ad ps = sent arrives addrs (ad_json.to_vec ad) ps
