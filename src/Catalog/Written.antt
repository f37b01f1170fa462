-- ===== src/Catalog/Written.antt =====
-- The entry that a write to the catalog returns describes the snapshot that was written.
use bf_multiraft.Base.{ℕ, ◌≡◌, refl, [], ◌∷◌, ◌++◌, Bytes, length}
use bf_multiraft.Io.{Io, IoResult, IoError, Env, ok, bind-ok, lift, pure, ◌>>=◌, ◌>>◌, of_ok}
use bf_multiraft.Core.Decimal.{dir_name}
use bf_multiraft.Catalog.{
  CatalogEntry, MetaFile, data_bin, meta_json, sha256_file, Params, Disk, SnapshotCatalog,
  hex_sha256, ok_or, create_dir_all, write_fsync, fsync_dir, prune, entry_of, write,
}

-- What holds of every value that an operation can return.
abbrev pub Gives {ℓ} : {A : Type 0} → (A → Type ℓ) → Io Disk A → Type ℓ
Gives {A = A} P m = (w : Env Disk) (a : A) → (m w).0 ≡ ok a → P a

gives-bind {ℓ} :
    {A B : Type 0} (P : B → Type ℓ) (m : Io Disk A) (f : A → Io Disk B)
    → ((a : A) → Gives P (f a))
    → Gives P (m >>= f)
gives-bind P m f h w b e = let (a, l, q) = bind-ok m f w b e in h a (m w).1 b q

gives-pure {ℓ} : {A : Type 0} (P : A → Type ℓ) (a : A) → P a → Gives P (pure a)
gives-pure P a h w b e = of_ok P e h

module _ (p : Params) (catalog : SnapshotCatalog) (group last_index last_term : ℕ)
    (id bytes : Bytes) where
  abbrev pub meta_of : MetaFile
  meta_of = record {
    group = group;
    last_index = last_index;
    last_term = last_term;
    snapshot_id = id;
    size = length bytes;
    sha256_hex = hex_sha256 p bytes;
  }

  abbrev pub written : CatalogEntry
  written = entry_of p meta_of (dir_name last_index last_term)

  abbrev pub Is : CatalogEntry → Type 0
  Is e = e ≡ written

  abbrev dir : Bytes
  dir = dir_name last_index last_term

  -- A step before others that all return the entry.
  before : (m : Io Disk (Unit {0})) (k : Io Disk CatalogEntry) → Gives Is k → Gives Is (m >> k)
  before m k h = gives-bind Is m (λ u. k) λ u. h

  -- The steps of the write, from the last one back.
  abbrev pruned : Io Disk CatalogEntry
  pruned = prune p catalog group >> pure written

  abbrev hashed : Io Disk CatalogEntry
  hashed =
      write_fsync p group dir sha256_file (meta_of.sha256_hex ++ (10 ∷ []))
      >> (fsync_dir p group dir >> pruned)

  abbrev described : Bytes → Io Disk CatalogEntry
  described meta_bytes = write_fsync p group dir meta_json meta_bytes >> hashed

  pruned-Gives : Gives Is pruned
  pruned-Gives = before (prune p catalog group) (pure written) (gives-pure Is written refl)

  hashed-Gives : Gives Is hashed
  hashed-Gives =
      before (write_fsync p group dir sha256_file (meta_of.sha256_hex ++ (10 ∷ [])))
        (fsync_dir p group dir >> pruned) (before (fsync_dir p group dir) pruned pruned-Gives)

  described-Gives : (meta_bytes : Bytes) → Gives Is (described meta_bytes)
  described-Gives meta_bytes =
      before (write_fsync p group dir meta_json meta_bytes) hashed hashed-Gives

  abbrev encoded : IoResult Bytes
  encoded = ok_or (p.meta_codec.to_vec meta_of) IoError.other

  pub write-written : Gives Is (write p catalog group last_index last_term id bytes)
  unfolding write
  write-written =
      before (create_dir_all p group dir)
        (write_fsync p group dir data_bin bytes >> (lift encoded >>= described))
        (before (write_fsync p group dir data_bin bytes) (lift encoded >>= described)
          (gives-bind Is (lift encoded) described described-Gives))
