-- ===== src/Catalog/RoundTrip.antt =====
-- A snapshot that is written to the catalog on a disk without faults reads back.
use bf_multiraft.Base.{
  ℕ, ◌≤◌, ◌≡◌, refl, sym, ap, ◌∙◌, subst, true, false, none, some, List, [], ◌∷◌, ◌++◌, All, Bytes,
  bytes_eq, bytes_eq_refl,
}
use bf_multiraft.OrdMap.{lookup, insert}
use bf_multiraft.Io.{ok, calm}
use bf_multiraft.Core.Decimal.{dir_name}
use bf_multiraft.Catalog.Middle.{All-split}
use bf_multiraft.Catalog.{
  CatalogEntry, DirEntry, Disk, SnapshotFile, data_bin, meta_json, sha256_file, Params,
  SnapshotCatalog, entries_of, find_entry, at_name, put_file, empty_dir, hex_sha256, list, latest,
  next, find, first_named, has_name, read, position_le, prune, write, create_dir_all, write_fsync,
  fsync_dir,
}
use bf_multiraft.Catalog.Listed.{list-calm, listed}
use bf_multiraft.Catalog.Written.{meta_of, written}
use bf_multiraft.Catalog.Beside.{NoneNamed, find_entry-NoneNamed, at_name-middle, listed-split}
use bf_multiraft.Catalog.Spared.{entries_of-insert}
use bf_multiraft.Catalog.Held

-- `read_dir` gives a new entry somewhere among the others, whose order it keeps.
abbrev pub Places : Params → Type 0
Places p =
    (e : DirEntry) (es : List DirEntry)
    → (xs : List DirEntry) × (ys : List DirEntry) × (es ≡ xs ++ ys)
      × (p.place e es ≡ xs ++ (e ∷ ys))

-- On a disk without faults there is room for a snapshot: no entry has the name of its directory,
-- and the listed ones are all older, and neither they nor their directories have its id.
pub record Room (p : Params) (catalog : SnapshotCatalog) (group index term : ℕ) (id bytes : Bytes)
    (d : Disk) (es : List CatalogEntry) : Type 0 where
  pub fresh : find_entry (dir_name index term) (entries_of group d) ≡ none
  pub entries : (list p group (calm d)).0 ≡ ok es
  pub older : All (λ e. position_le p (written p catalog group index term id bytes) e ≡ false) es
  pub unnamed : All (λ e. has_name p id e ≡ false) es

module _ (p : Params) (places : Places p) (catalog : SnapshotCatalog) (keeps : 1 ≤ catalog.keep)
    (group index term : ℕ) (id bytes meta_bytes : Bytes)
    (encoded : p.meta_codec.to_vec (meta_of p catalog group index term id bytes)
      ≡ some meta_bytes) where
  abbrev dir : Bytes
  dir = Held.dir p catalog keeps group index term id bytes meta_bytes encoded

  abbrev new : CatalogEntry
  new = Held.new p catalog keeps group index term id bytes meta_bytes encoded

  abbrev new_dir : DirEntry
  new_dir = Held.new_dir p catalog keeps group index term id bytes meta_bytes encoded

  abbrev with_file : SnapshotFile → Bytes → Disk → Disk
  with_file f b d = insert group (at_name dir (put_file f (some b)) (entries_of group d)) d

  -- The disk before the prune.
  abbrev filled : Disk → Disk
  filled d = with_file sha256_file (hex_sha256 p bytes ++ (10 ∷ [])) (
      with_file meta_json meta_bytes
        (with_file data_bin bytes (insert group (p.place (empty_dir dir) (entries_of group d)) d)))

  write-calm :
      (d d' : Disk)
      → find_entry dir (entries_of group d) ≡ none
      → prune p catalog group (calm (filled d)) ≡ (ok tt, calm d')
      → write p catalog group index term id bytes (calm d) ≡ (ok new, calm d')
  unfolding write create_dir_all write_fsync fsync_dir find_entry hex_sha256 dir_name lookup
      bf_multiraft.Catalog.to_hex bf_multiraft.Core.Decimal.digits
  write-calm d d' h k = rw (h, encoded, k) refl

  with_file-middle :
      (f : SnapshotFile) (b : Bytes) (d : Disk) (g : DirEntry) (xs ys : List DirEntry)
      → bytes_eq g.name dir ≡ true
      → NoneNamed dir xs
      → NoneNamed dir ys
      → entries_of group d ≡ xs ++ (g ∷ ys)
      → entries_of group (with_file f b d) ≡ xs ++ (put_file f (some b) g ∷ ys)
  with_file-middle f b d g xs ys n h k q =
      entries_of-insert group (at_name dir (put_file f (some b)) (entries_of group d)) d
      ∙ ap (at_name dir (put_file f (some b))) q
      ∙ at_name-middle dir g n (put_file f (some b)) xs ys h k

  filled-middle :
      (d : Disk) (xs ys : List DirEntry)
      → NoneNamed dir xs
      → NoneNamed dir ys
      → p.place (empty_dir dir) (entries_of group d) ≡ xs ++ (empty_dir dir ∷ ys)
      → entries_of group (filled d) ≡ xs ++ (new_dir ∷ ys)
  filled-middle d xs ys h k q =
      let n = bytes_eq_refl dir in
      with_file-middle sha256_file _ _ _ xs ys n h k (
        with_file-middle meta_json meta_bytes _ _ xs ys n h k (
          with_file-middle data_bin bytes _ (empty_dir dir) xs ys n h k
            (entries_of-insert group (p.place (empty_dir dir) (entries_of group d)) d ∙ q)))

  -- The write of a snapshot for which there is room.
  write-Holds :
      (d : Disk) (es : List CatalogEntry)
      → Room p catalog group index term id bytes d es
      → (d' : Disk) × (write p catalog group index term id bytes (calm d) ≡ (ok new, calm d'))
        × Held.Holds p catalog keeps group index term id bytes meta_bytes encoded d'
  write-Holds d es room =
      let (xs, ys, q, place) = places (empty_dir dir) (entries_of group d) in
      let (h, k) =
        All-split (λ e. bytes_eq e.name dir ≡ false) xs ys
          (subst (NoneNamed dir) q (find_entry-NoneNamed dir (entries_of group d) room.fresh)) in
      let l : listed p (xs ++ ys) ≡ ok es =
        ap (listed p) (sym q) ∙ sym (ap (λ r. r.0) (list-calm p group d)) ∙ room.entries in
      let (cs1, cs2, a, b, r) = listed-split p xs ys es l in
      let here = filled-middle d xs ys h k place in
      let old = All-split _ cs1 cs2 (subst (All (λ a. position_le p new a ≡ false)) r room.older) in
      let (d', w, holds) =
        Held.prune-Holds p catalog keeps group index term id bytes meta_bytes encoded (filled d)
          (record {
            before = xs;
            after = ys;
            older_before = cs1;
            older_after = cs2;
            here = here;
            before_names = h;
            after_names = k;
            before_listed = a;
            after_listed = b;
            before_older = old.0;
            after_older = old.1;
            before_unnamed =
                (All-split _ cs1 cs2 (subst (All (λ a. has_name p id a ≡ false)) r room.unnamed)).0;
          }) in
      (d', write-calm d d' room.fresh w, holds)

  -- On a disk without faults, with `keep` at least 1, a snapshot for which there is room is written
  -- and its entry returned; a read of its id then gives its bytes, and it is the latest one,
  -- whatever the prune removed.
  pub write-ReadsBack :
      (d : Disk) (es : List CatalogEntry)
      → Room p catalog group index term id bytes d es
      → (d' : Disk) × (write p catalog group index term id bytes (calm d) ≡ (ok new, calm d'))
        × (read p group id (calm d') ≡ (ok (some bytes), calm d'))
        × (latest p group (calm d') ≡ (ok (some new), calm d'))
  write-ReadsBack d es room =
      let (d', w, h) = write-Holds d es room in
      (
        d',
        w,
        Held.Holds-read p catalog keeps group index term id bytes meta_bytes encoded d' h,
        Held.Holds-latest p catalog keeps group index term id bytes meta_bytes encoded d' h,
      )
