-- ===== src/Facade/Ads.antt =====
-- The advertisements of a node hold one for each group and id.
use bf_multiraft.Base.{
  ℕ, ◌≡◌, refl, ap, ◌∙◌, not, ◌&&◌, List, [], ◌∷◌, ◌++◌, arith, ◌==◌, bytes_eq, bytes_eq_refl,
  retain, Bytes,
}
use bf_multiraft.Core.{SnapshotAdvertisement}
use bf_multiraft.Facade.{is_same_ad, record_ad}

-- The advertisements of a group and id.
unfoldable pub ads_of : ℕ → Bytes → List SnapshotAdvertisement → List SnapshotAdvertisement
ads_of group id = retain (λ a. (a.group == group) && bytes_eq a.snapshot_id id)

ads_of-append :
    (group : ℕ) (id : Bytes) (xs ys : List SnapshotAdvertisement)
    → ads_of group id (xs ++ ys) ≡ ads_of group id xs ++ ads_of group id ys
unfolding ads_of retain
ads_of-append group id [] ys = refl
ads_of-append group id (x ∷ xs) ys = ground (arith, ads_of-append group id xs ys)

ads_of-kept :
    (ad : SnapshotAdvertisement) (ads : List SnapshotAdvertisement)
    → ads_of ad.group ad.snapshot_id (retain (λ a. not (is_same_ad ad a)) ads) ≡ []
unfolding ads_of retain
ads_of-kept ad [] = refl
ads_of-kept ad (a ∷ ads) = ground (arith, ads_of-kept ad ads)

ads_of-one : (ad : SnapshotAdvertisement) → ads_of ad.group ad.snapshot_id (ad ∷ []) ≡ ad ∷ []
unfolding ads_of retain
ads_of-one ad = ground (arith, bytes_eq_refl ad.snapshot_id)

-- After an advertisement is recorded it is the only one of its group and id, and the last of all.
pub record_ad-only :
    (ad : SnapshotAdvertisement) (ads : List SnapshotAdvertisement)
    → (ads_of ad.group ad.snapshot_id (record_ad ad ads) ≡ ad ∷ [])
      × ((before : List SnapshotAdvertisement) × (record_ad ad ads ≡ before ++ (ad ∷ [])))
unfolding record_ad
record_ad-only ad ads = (
  ads_of-append ad.group ad.snapshot_id (retain (λ a. not (is_same_ad ad a)) ads) (ad ∷ [])
      ∙ ap (λ xs. xs ++ ads_of ad.group ad.snapshot_id (ad ∷ [])) (ads_of-kept ad ads)
      ∙ ads_of-one ad,
  (retain (λ a. not (is_same_ad ad a)) ads, refl),
)

kept_others :
    (ad : SnapshotAdvertisement) (ads : List SnapshotAdvertisement)
    → retain (λ a. not (is_same_ad ad a)) (retain (λ a. not (is_same_ad ad a)) ads ++ (ad ∷ []))
      ≡ retain (λ a. not (is_same_ad ad a)) ads
unfolding retain
kept_others ad [] = ground (arith, bytes_eq_refl ad.snapshot_id)
kept_others ad (a ∷ ads) = ground (arith, kept_others ad ads)

-- The other advertisements stay as they are, in their order.
pub record_ad-others :
    (ad : SnapshotAdvertisement) (ads : List SnapshotAdvertisement)
    → retain (λ a. not (is_same_ad ad a)) (record_ad ad ads)
      ≡ retain (λ a. not (is_same_ad ad a)) ads
unfolding record_ad
record_ad-others ad ads = kept_others ad ads

-- The advertisements once one is there: it comes last, and no other has its group and its id.
abbrev pub replaced :
    SnapshotAdvertisement → List SnapshotAdvertisement → List SnapshotAdvertisement
replaced ad ads =
    retain (λ a. not ((a.group == ad.group) && bytes_eq a.snapshot_id ad.snapshot_id)) ads
    ++ (ad ∷ [])

pub record_ad-replaced :
    (ad : SnapshotAdvertisement) (ads : List SnapshotAdvertisement)
    → record_ad ad ads ≡ replaced ad ads
unfolding record_ad
record_ad-replaced ad ads = refl
