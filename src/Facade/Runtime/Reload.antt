-- ===== src/Facade/Runtime/Reload.antt =====
-- The advertisements survive a restart.
use bf_multiraft.Base.{◌≡◌, refl, ap, sym, subst, false, some, [], ◌∷◌, Bytes}
use bf_multiraft.Io.{Env, calm}
use bf_multiraft.Codec.{TotalCodec}
use bf_multiraft.Core.{ClusterConfig, SnapshotAdvertisement}
use bf_multiraft.Facade.{record_ad}
use bf_multiraft.Facade.Runtime.{
  AdsFile, Ads, SnapshotRuntime, is_empty_path, load_ads, new, persist_ads, record_snapshot_ad,
  or_no_ads,
}

module _ (json : TotalCodec Ads) where
  -- A run: advertisements that are recorded one after the other.
  abbrev pub record_each : Ads → SnapshotRuntime → Env AdsFile → SnapshotRuntime × Env AdsFile
  record_each [] rt w = (rt, w)
  record_each (ad ∷ ads) rt w =
      let (rt', w', calls) = record_snapshot_ad json ad rt w in record_each ads rt' w'

  -- The ads that a restart on what a disk holds would load.
  abbrev pub reloaded : Bytes → AdsFile → Ads
  reloaded data_dir file = (load_ads json data_dir (calm file)).0

  abbrev with_ad : SnapshotAdvertisement → SnapshotRuntime → SnapshotRuntime
  with_ad ad rt = record rt { ads = record_ad ad rt.ads }

  abbrev recorded :
      SnapshotAdvertisement → SnapshotRuntime → Env AdsFile → SnapshotRuntime × Env AdsFile
  recorded ad rt w = let (rt', w', calls) = record_snapshot_ad json ad rt w in (rt', w')

  record_snapshot_ad-calm :
      (ad : SnapshotAdvertisement) (rt : SnapshotRuntime) (file : AdsFile)
      → is_empty_path rt.data_dir ≡ false
      → recorded ad rt (calm file)
        ≡ (with_ad ad rt, calm (some (json.to_vec (record_ad ad rt.ads))))
  unfolding record_snapshot_ad persist_ads
  record_snapshot_ad-calm ad rt file h = rw h refl

  reloaded-saved :
      (dir : Bytes) (ads : Ads)
      → is_empty_path dir ≡ false
      → reloaded dir (some (json.to_vec ads)) ≡ ads
  unfolding load_ads
  reloaded-saved dir ads h = rw (h, reloaded) (ap (or_no_ads json) (json.round_trip ads))

  -- What a restart loads is what the runtime has.
  abbrev Reloads : Bytes → SnapshotRuntime × Env AdsFile → Type 0
  Reloads dir (rt, w) = (load_ads json dir w).0 ≡ rt.ads

  record_each-Reloads :
      (ads : Ads) (rt : SnapshotRuntime) (file : AdsFile)
      → is_empty_path rt.data_dir ≡ false
      → reloaded rt.data_dir file ≡ rt.ads
      → Reloads rt.data_dir (record_each ads rt (calm file))
  record_each-Reloads [] rt file h saved = saved
  record_each-Reloads (ad ∷ ads) rt file h saved =
      subst (λ x. Reloads rt.data_dir (record_each ads x.0 x.1))
        (sym (record_snapshot_ad-calm ad rt file h))
        (record_each-Reloads ads (with_ad ad rt) (some (json.to_vec (record_ad ad rt.ads))) h
          (reloaded-saved rt.data_dir (record_ad ad rt.ads) h))

  -- A node with a data directory that starts on any file, and then records advertisements while no
  -- file operation fails, has the same advertisements after it starts again.
  pub record_each-Restart :
      (config : ClusterConfig) (file : AdsFile) (ads : Ads)
      → is_empty_path config.data_dir ≡ false
      → let (rt, w) = record_each ads (new json config (calm file)).0 (calm file) in
        (new json config w).0.ads ≡ rt.ads
  unfolding new
  record_each-Restart config file ads h =
      record_each-Reloads ads (new json config (calm file)).0 file h refl
