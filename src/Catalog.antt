-- ===== src/Catalog.antt =====
-- crates/multiraft-store/src/snapshot_catalog.rs: the durable snapshots of each group, one
-- directory `{root}/{group}/{index}-{term}/` for each. The disk is what lies below the root: for
-- each group whose directory exists, the entries of that directory in the order in which `read_dir`
-- gives them.
pub mod Order
pub mod Lookups
pub mod Apart
pub mod Listed
pub mod Prune
pub mod Reading
pub mod Written
pub mod Middle
pub mod Beside
pub mod Spared
pub mod Held
pub mod RoundTrip
pub mod Tests
use bf_multiraft.Base.{
  ℕ, ◌+◌, ◌-◌, ◌/◌, ◌%◌, Bool, true, false, not, ◌||◌, ◌&&◌, Option, none, some, List, [], ◌∷◌,
  ◌++◌, map, Bytes, length, take, ltb, leb, ◌==◌, if◌then◌else◌, bytes_eq, contains,
}
use bf_multiraft.OrdMap.{OrdMap, lookup, insert}
use bf_multiraft.Io.{
  Io, IoResult, IoError, os, invalid_data, Env, ok, err, attempt, observe, lift, pure, ◌>>=◌, ◌>>◌,
}
use bf_multiraft.Codec.{Codec}
use bf_multiraft.Core.Decimal.{to_string, dir_name}
use bf_multiraft.Catalog.Order.{sort_by, without}

-- The field `dir` is the name of the directory below that of the group.
pub record CatalogEntry : Type 0 where
  pub group : ℕ
  pub last_index : ℕ
  pub last_term : ℕ
  pub snapshot_id : Bytes
  pub size : ℕ
  pub sha256_hex : Bytes
  pub dir : Bytes

pub record MetaFile : Type 0 where
  pub group : ℕ
  pub last_index : ℕ
  pub last_term : ℕ
  pub snapshot_id : Bytes
  pub size : ℕ
  pub sha256_hex : Bytes

pub data SnapshotFile : Type 0 where
  data_bin meta_json sha256_file : SnapshotFile

-- An entry of a group's directory, with the files below it.
pub record DirEntry : Type 0 where
  pub name : Bytes
  pub is_dir : Bool
  pub data_file : Option Bytes
  pub meta_file : Option Bytes
  pub sha_file : Option Bytes

abbrev pub Disk : Type 0
Disk = OrdMap (List DirEntry)

-- The crates sha2 and serde_json, and where a new entry comes in the order of `read_dir`.
pub record Params : Type 0 where
  pub digest : Bytes → Bytes
  pub meta_codec : Codec MetaFile
  pub place : DirEntry → List DirEntry → List DirEntry

pub record SnapshotCatalog : Type 0 where
  pub keep : ℕ

unfoldable pub new : ℕ → SnapshotCatalog
new keep = record { keep = if ltb keep 1 then 1 else keep }

-- `{b:02x}`.
abbrev hex_digit : ℕ → ℕ
hex_digit d = if ltb d 10 then 48 + d else 87 + d

unfoldable pub to_hex : Bytes → Bytes
to_hex [] = []
to_hex (b ∷ bs) = hex_digit (b / 16) ∷ hex_digit (b % 16) ∷ to_hex bs

unfoldable pub hex_sha256 : Params → Bytes → Bytes
hex_sha256 p data_bytes = to_hex (p.digest data_bytes)

abbrev pub or_no_entries : Option (List DirEntry) → List DirEntry
or_no_entries none = []
or_no_entries (some es) = es

abbrev pub entries_of : ℕ → Disk → List DirEntry
entries_of group d = or_no_entries (lookup group d)

unfoldable pub find_entry : Bytes → List DirEntry → Option DirEntry
find_entry name [] = none
find_entry name (e ∷ es) = if bytes_eq e.name name then some e else find_entry name es

-- A change to the entries of that name.
abbrev pub at_name : Bytes → (DirEntry → DirEntry) → List DirEntry → List DirEntry
at_name name f = map (λ e. if bytes_eq e.name name then f e else e)

abbrev pub content : SnapshotFile → DirEntry → Option Bytes
content data_bin e = e.data_file
content meta_json e = e.meta_file
content sha256_file e = e.sha_file

abbrev pub put_file : SnapshotFile → Option Bytes → DirEntry → DirEntry
put_file data_bin b e = record e { data_file = b }
put_file meta_json b e = record e { meta_file = b }
put_file sha256_file b e = record e { sha_file = b }

abbrev pub empty_dir : Bytes → DirEntry
empty_dir name = record {
  name = name;
  is_dir = true;
  data_file = none;
  meta_file = none;
  sha_file = none;
}

abbrev pub ok_or : {A : Type 0} → Option A → IoError → IoResult A
ok_or none e = err e
ok_or (some a) e = ok a

-- `into_iter().next()`.
abbrev pub next : List CatalogEntry → Option CatalogEntry
next [] = none
next (e ∷ es) = some e

module _ (p : Params) where
  -- `create_dir_all` does nothing to a directory that exists, and fails on a file of that name. A
  -- failure may have created the directory of the group.
  abbrev with_dir : ℕ → Bytes → Disk → Disk
  with_dir group name d = elim (find_entry name (entries_of group d)) [
    | none ↦ insert group (p.place (empty_dir name) (entries_of group d)) d
    | some e ↦ d
  ]

  abbrev with_group : ℕ → Option Bytes → Disk → Disk
  with_group group none d = d
  with_group group (some _) d = insert group (entries_of group d) d

  abbrev blocked : ℕ → Bytes → Disk → Bool
  blocked group name d = elim (find_entry name (entries_of group d)) [
    | none ↦ false
    | some e ↦ not e.is_dir
  ]

  unfoldable pub create_dir_all : ℕ → Bytes → Io Disk (Unit {0})
  create_dir_all group name w =
      if blocked group name w.disk
      then (err os, w)
      else attempt (with_dir group name) (with_group group) w

  abbrev put : ℕ → Bytes → SnapshotFile → Option Bytes → Disk → Disk
  put group name f none d = d
  put group name f (some b) d =
      insert group (at_name name (put_file f (some b)) (entries_of group d)) d

  -- `File::create`, `write_all` and `sync_all`.
  unfoldable pub write_fsync : ℕ → Bytes → SnapshotFile → Bytes → Io Disk (Unit {0})
  write_fsync group name f data_bytes =
      attempt (put group name f (some data_bytes)) (put group name f)

  unfoldable pub fsync_dir : ℕ → Bytes → Io Disk (Unit {0})
  fsync_dir group name = attempt (λ d. d) (λ left d. d)

  abbrev pub drop_entry : ℕ → Bytes → Disk → Disk
  drop_entry group name d =
      insert group (without (λ e. bytes_eq e.name name) (entries_of group d)) d

  -- A removal that fails has removed some of the files.
  abbrev keep_unless : Bool → Option Bytes → Option Bytes
  keep_unless gone b = if gone then none else b

  abbrev drop_files : ℕ → Bytes → Option Bytes → Disk → Disk
  drop_files group name none d = d
  drop_files group name (some gone) d =
      insert group
        (at_name name
          (λ e. record e {
            data_file = keep_unless (contains gone 0) e.data_file;
            meta_file = keep_unless (contains gone 1) e.meta_file;
            sha_file = keep_unless (contains gone 2) e.sha_file;
          })
          (entries_of group d))
        d

  unfoldable pub remove_dir_all : ℕ → Bytes → Io Disk (Unit {0})
  remove_dir_all group name = attempt (drop_entry group name) (drop_files group name)

  -- `Path::exists`, which takes an error for an absence.
  abbrev or_absent : IoResult Bool → IoResult Bool
  or_absent (ok b) = ok b
  or_absent (err e) = ok false

  abbrev is_there : {A : Type 0} → Option A → Bool
  is_there none = false
  is_there (some a) = true

  abbrev pub exists : {A : Type 0} → (Disk → Option A) → Io Disk Bool
  exists f w = let (r, w') = observe (λ d. is_there (f d)) w in (or_absent r, w')

  abbrev pub entry_of : MetaFile → Bytes → CatalogEntry
  entry_of meta dir = record {
    group = meta.group;
    last_index = meta.last_index;
    last_term = meta.last_term;
    snapshot_id = meta.snapshot_id;
    size = meta.size;
    sha256_hex = meta.sha256_hex;
    dir = dir;
  }

  -- The loop over the entries of the directory. Nothing is written while it runs.
  unfoldable pub list_entries : List DirEntry → Io Disk (List CatalogEntry)
  list_entries [] = pure []
  list_entries (e ∷ es) = do
    ent ← observe (λ _. e)
    is_dir ← observe (λ _. ent.is_dir)
    if not is_dir then list_entries es else (do
      there ← exists (λ _. ent.meta_file)
      if not there then list_entries es else (do
        found ← observe (λ _. ent.meta_file)
        meta_bytes ← lift (ok_or found IoError.not_found)
        meta ← lift (ok_or (p.meta_codec.from_slice meta_bytes) invalid_data)
        out ← list_entries es
        pure (entry_of meta ent.name ∷ out)))

  unfoldable pub list : ℕ → Io Disk (List CatalogEntry)
  list group = do
    there ← exists (lookup group)
    if not there then pure [] else (do entries ← observe (entries_of group); list_entries entries)

  -- The order of `(last_index, last_term)`.
  unfoldable pub position_le : CatalogEntry → CatalogEntry → Bool
  position_le a b =
      ltb a.last_index b.last_index
      || ((a.last_index == b.last_index) && leb a.last_term b.last_term)

  unfoldable pub latest : ℕ → Io Disk (Option CatalogEntry)
  latest group = do entries ← list group; pure (next (sort_by (λ a b. position_le b a) entries))

  unfoldable pub has_name : Bytes → CatalogEntry → Bool
  has_name snapshot_id e = bytes_eq e.snapshot_id snapshot_id || bytes_eq e.dir snapshot_id

  unfoldable pub first_named : Bytes → List CatalogEntry → Option CatalogEntry
  first_named snapshot_id [] = none
  first_named snapshot_id (e ∷ es) =
      if has_name snapshot_id e then some e else first_named snapshot_id es

  unfoldable pub find : ℕ → Bytes → Io Disk (Option CatalogEntry)
  find group snapshot_id = do entries ← list group; pure (first_named snapshot_id entries)

  abbrev pub file_at : ℕ → Bytes → SnapshotFile → Disk → Option Bytes
  file_at group name f d = elim (find_entry name (entries_of group d)) [
    | none ↦ none
    | some e ↦ content f e
  ]

  -- `fs::read`.
  abbrev pub read_file : ℕ → Bytes → SnapshotFile → Io Disk Bytes
  read_file group name f = do
    found ← observe (file_at group name f)
    lift (ok_or found IoError.not_found)

  -- The data, if it has the digest that the meta file of the entry records.
  abbrev pub check_digest : CatalogEntry → Bytes → Io Disk (Option Bytes)
  check_digest entry data_bytes =
      if not (bytes_eq (hex_sha256 p data_bytes) entry.sha256_hex)
      then lift (err invalid_data)
      else pure (some data_bytes)

  abbrev pub read_entry : ℕ → CatalogEntry → Io Disk (Option Bytes)
  read_entry group entry = do
    data_bytes ← read_file group entry.dir data_bin
    check_digest entry data_bytes

  abbrev pub read_found : ℕ → Option CatalogEntry → Io Disk (Option Bytes)
  read_found group none = pure none
  read_found group (some entry) = read_entry group entry

  unfoldable pub read : ℕ → Bytes → Io Disk (Option Bytes)
  read group snapshot_id = do entry ← find group snapshot_id; read_found group entry

  -- `let _ = fs::remove_dir_all(&e.dir)` for each, whatever comes of it.
  unfoldable pub remove_dirs : ℕ → List CatalogEntry → Io Disk (Unit {0})
  remove_dirs group [] w = (ok tt, w)
  remove_dirs group (e ∷ es) w = remove_dirs group es (remove_dir_all group e.dir w).1

  unfoldable pub prune : SnapshotCatalog → ℕ → Io Disk (Unit {0})
  prune catalog group = do
    entries ← list group
    if leb (length entries) catalog.keep
        then pure tt
        else remove_dirs group (take (length entries - catalog.keep) (sort_by position_le entries))

  unfoldable pub write : SnapshotCatalog → ℕ → ℕ → ℕ → Bytes → Bytes → Io Disk CatalogEntry
  write catalog group last_index last_term snapshot_id data_bytes =
      let dir = dir_name last_index last_term in
      let meta : MetaFile = record {
        group = group;
        last_index = last_index;
        last_term = last_term;
        snapshot_id = snapshot_id;
        size = length data_bytes;
        sha256_hex = hex_sha256 p data_bytes;
      } in
      do
        create_dir_all group dir
        write_fsync group dir data_bin data_bytes
        meta_bytes ← lift (ok_or (p.meta_codec.to_vec meta) IoError.other)
        write_fsync group dir meta_json meta_bytes
        write_fsync group dir sha256_file (meta.sha256_hex ++ (10 ∷ []))
        fsync_dir group dir
        prune catalog group
        pure (entry_of meta dir)
