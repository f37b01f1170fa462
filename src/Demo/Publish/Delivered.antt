-- ===== src/Demo/Publish/Delivered.antt =====
-- What the voters know once a standby has published an advertisement.
use bf_multiraft.Base.{
  ℕ, suc, Bytes, not, ◌==◌, bytes_eq, bytes_eq_refl, retain, arith, Option, none, some, ◌≡◌, refl,
  ap, ap₂, ◌∙◌, Bool, false, Bool-cases, inl, inr, ◌&&◌, ◌||◌, List, [], ◌∷◌, ◌++◌, map,
  if◌then◌else◌,
}
use bf_multiraft.Io.{Env}
use bf_multiraft.Codec.{Codec, TotalCodec}
use bf_multiraft.Fsm.{Result, ok, err}
use bf_multiraft.Fsm.Counter.{CounterFsm}
use bf_multiraft.Core.{SocketAddr, SnapshotAdvertisement}
use bf_multiraft.Catalog.{Params}
use bf_multiraft.Facade.Ads.{replaced, record_ad-replaced}
use bf_multiraft.Facade.Requests.{RaftApi}
use bf_multiraft.Facade.Runtime.{AdsFile, Ads, record_snapshot_ad}
use bf_multiraft.Demo.Nodes.{Node}
use bf_multiraft.Demo.Snapshots.{admin_post_snapshot_ad, admin_get_snapshot_ads}
use bf_multiraft.Demo.Publish.{
  Process, same_addr, http_post_json, post_each, sent, publish_snapshot_ad,
}

retain_again :
    (test : SnapshotAdvertisement → Bool) (ad : SnapshotAdvertisement) (ads : Ads)
    → test ad ≡ false
    → retain test (retain test ads ++ (ad ∷ [])) ≡ retain test ads
unfolding retain
retain_again test ad [] h = rw h refl
retain_again test ad (a ∷ ads) h = ground (arith, retain_again test ad ads h)

replaced_again :
    (ad : SnapshotAdvertisement) (ads : Ads) → replaced ad (replaced ad ads) ≡ replaced ad ads
replaced_again ad ads =
    ap (λ kept. kept ++ (ad ∷ []))
      (retain_again (λ a. not ((a.group == ad.group) && bytes_eq a.snapshot_id ad.snapshot_id)) ad
        ads (ground (arith, bytes_eq_refl ad.snapshot_id)))

map_ext : {B C : Type 0} (f g : B → C) → ((x : B) → f x ≡ g x) → (xs : List B) → map f xs ≡ map g xs
map_ext f g h [] = refl
map_ext f g h (x ∷ xs) = ap₂ (λ y ys. y ∷ ys) (h x) (map_ext f g h xs)

map-map :
    {B C D : Type 0} (g : C → D) (f : B → C) (xs : List B)
    → map g (map f xs) ≡ map (λ x. g (f x)) xs
map-map g f [] = refl
map-map g f (x ∷ xs) = ap (λ ys. g (f x) ∷ ys) (map-map g f xs)

module _ (A : RaftApi CounterFsm) (p : Params) (json : TotalCodec Ads)
    (ad_json : Codec SnapshotAdvertisement) where
  abbrev pub ads_of_process : Process A p json ad_json → Ads
  ads_of_process q = admin_get_snapshot_ads A p json q.nodes

  -- Whether a request for one of the addresses arrives at the process.
  abbrev pub hears : (ℕ → Bool) → List SocketAddr → SocketAddr → Bool
  hears arrives [] here = false
  hears arrives (addr ∷ addrs) here =
      (same_addr here addr && arrives 0) || hears (λ k. arrives (suc k)) addrs here

  -- A process with no node has no place for the advertisement.
  abbrev pub with_ad : SnapshotAdvertisement → List (Node A) → Ads
  with_ad ad [] = []
  with_ad ad (n ∷ ns) = replaced ad n.runtime.ads

  -- What a process lists after the requests.
  abbrev pub told :
      (ℕ → Bool) → List SocketAddr → SnapshotAdvertisement → Process A p json ad_json → Ads
  told arrives addrs ad q =
      if hears arrives addrs q.addr then with_ad ad q.nodes else ads_of_process q

  -- The request lists the advertisement, and a second one would change nothing.
  posted-with_ad :
      (ad : SnapshotAdvertisement) (ns : List (Node A)) (file : Env AdsFile)
      → let left = (admin_post_snapshot_ad A p json ad ns file).1 in
        (admin_get_snapshot_ads A p json left ≡ with_ad ad ns) × (with_ad ad left ≡ with_ad ad ns)
  unfolding admin_post_snapshot_ad admin_get_snapshot_ads record_snapshot_ad
  posted-with_ad ad [] file = (refl, refl)
  posted-with_ad ad (n ∷ ns) file =
      let q = record_ad-replaced ad n.runtime.ads in
      (q, ap (replaced ad) q ∙ replaced_again ad n.runtime.ads)

  module _ (ad : SnapshotAdvertisement) (body : Bytes)
      (read_back : ad_json.from_slice body ≡ some ad) where
    posted-told :
        (arrives : ℕ → Bool) (addr : SocketAddr) (addrs : List SocketAddr)
        (q : Process A p json ad_json)
        → told
            (λ k. arrives (suc k))
            addrs
            ad
            (http_post_json A p json ad_json (arrives 0) addr body q)
          ≡ told arrives (addr ∷ addrs) ad q
    unfolding http_post_json
    posted-told arrives addr addrs q =
        let (listed, again) = posted-with_ad ad q.nodes q.file in
        elim (Bool-cases (same_addr q.addr addr && arrives 0)) [
          | inr e ↦ rw e refl
          | inl e ↦ elim (Bool-cases (hears (λ k. arrives (suc k)) addrs q.addr)) [
            | inl h ↦ rw (read_back, e, h) again
            | inr h ↦ rw (read_back, e, h) listed
          ]
        ]

    post_each-told :
        (arrives : ℕ → Bool) (addrs : List SocketAddr) (ps : List (Process A p json ad_json))
        → map ads_of_process (post_each A p json ad_json arrives addrs body ps)
          ≡ map (told arrives addrs ad) ps
    unfolding post_each
    post_each-told arrives [] ps = refl
    post_each-told arrives (addr ∷ addrs) ps =
        post_each-told (λ k. arrives (suc k)) addrs
          (map (http_post_json A p json ad_json (arrives 0) addr body) ps)
        ∙ map-map (told (λ k. arrives (suc k)) addrs ad)
            (http_post_json A p json ad_json (arrives 0) addr body) ps
        ∙ map_ext _ _ (posted-told arrives addr addrs) ps

  -- What a publication comes to, by the JSON of the advertisement.
  abbrev pub Delivered :
      (ℕ → Bool)
      → List SocketAddr
      → SnapshotAdvertisement
      → List (Process A p json ad_json)
      → Option Bytes
      → Result (Unit {0}) (Unit {0}) × List (Process A p json ad_json)
      → Type 0
  Delivered arrives addrs ad ps none (r, left) = (r ≡ err tt) × (left ≡ ps)
  Delivered arrives addrs ad ps (some body) (r, left) =
      (r ≡ ok tt) × (map ads_of_process left ≡ map (told arrives addrs ad) ps)

  sent-Delivered :
      (arrives : ℕ → Bool) (addrs : List SocketAddr) (ad : SnapshotAdvertisement)
      (ps : List (Process A p json ad_json)) (o : Option Bytes)
      → ad_json.to_vec ad ≡ o
      → Delivered arrives addrs ad ps o (sent A p json ad_json arrives addrs o ps)
  sent-Delivered arrives addrs ad ps none h = (refl, refl)
  sent-Delivered arrives addrs ad ps (some body) h =
      (refl, post_each-told ad body (ad_json.round_trip ad body h) arrives addrs ps)

  -- A publication fails, and sends nothing, if the advertisement has no JSON. Otherwise each
  -- process at which a request arrives lists the advertisement, last, and no other of its group and
  -- id, with those of other groups or ids as they were, however many requests arrive; what the
  -- other processes list is unchanged.
  pub publish_snapshot_ad-Delivered :
      (arrives : ℕ → Bool) (addrs : List SocketAddr) (ad : SnapshotAdvertisement)
      (ps : List (Process A p json ad_json))
      → Delivered arrives addrs ad ps
          (ad_json.to_vec ad)
          (publish_snapshot_ad A p json ad_json arrives addrs ad ps)
  unfolding publish_snapshot_ad
  publish_snapshot_ad-Delivered arrives addrs ad ps =
      sent-Delivered arrives addrs ad ps (ad_json.to_vec ad) refl
