-- ===== src/Catalog/Tests.antt =====
-- The catalog at concrete snapshots. The digest of the data is the data, and a meta file is its
-- numbers and texts in a row.
use bf_multiraft.Base.{
  ℕ, ◌≡◌, refl, ap, true, Option, none, some, List, [], ◌∷◌, ◌++◌, Bytes, length, take, drop,
  of_some, arith, bytes_eq,
}
use bf_multiraft.OrdMap.{lookup}
use bf_multiraft.Io.{ok, calm}
use bf_multiraft.Core.Decimal.{dir_name, digits}
use bf_multiraft.Catalog.{
  CatalogEntry, MetaFile, DirEntry, Params, Disk, list, list_entries, prune, hex_sha256, entry_of,
  SnapshotCatalog, find_entry, position_le, has_name, write, read, latest,
}
use bf_multiraft.Catalog.Prune.{Pruned, prune-Pruned}
use bf_multiraft.Catalog.Written.{meta_of, written}
use bf_multiraft.Catalog.RoundTrip.{Places, Room, write-ReadsBack}

abbrev pub put_meta : MetaFile → Bytes
put_meta m =
    m.group
    ∷ m.last_index
    ∷ m.last_term
    ∷ m.size
    ∷ length m.snapshot_id
    ∷ (m.snapshot_id ++ m.sha256_hex)

abbrev get_meta : Bytes → Option MetaFile
get_meta (g ∷ i ∷ t ∷ s ∷ n ∷ rest) = some (record {
  group = g;
  last_index = i;
  last_term = t;
  snapshot_id = take n rest;
  size = s;
  sha256_hex = drop n rest;
})
get_meta _ = none

take-append : (a b : Bytes) → take (length a) (a ++ b) ≡ a
take-append [] b = refl
take-append (x ∷ a) b = ap (λ c. x ∷ c) (take-append a b)

drop-append : (a b : Bytes) → drop (length a) (a ++ b) ≡ b
drop-append [] b = refl
drop-append (x ∷ a) b = drop-append a b

pub rebuilt : (m : MetaFile) → get_meta (put_meta m) ≡ some m
rebuilt m = rw (take-append m.snapshot_id m.sha256_hex, drop-append m.snapshot_id m.sha256_hex) refl

abbrev pub params : Params
params = record {
  digest = λ b. b;
  meta_codec = record {
    to_vec = λ m. some (put_meta m);
    from_slice = get_meta;
    round_trip = λ m b h. of_some (λ x. get_meta x ≡ some m) h (rebuilt m);
  };
  place = λ e es. e ∷ es;
}

abbrev meta : ℕ → ℕ → Bytes → MetaFile
meta index term data_bytes = record {
  group = 7;
  last_index = index;
  last_term = term;
  snapshot_id = index ∷ term ∷ [];
  size = length data_bytes;
  sha256_hex = hex_sha256 params data_bytes;
}

abbrev snapshot : ℕ → ℕ → Bytes → DirEntry
snapshot index term data_bytes = record {
  name = dir_name index term;
  is_dir = true;
  data_file = some data_bytes;
  meta_file = some (put_meta (meta index term data_bytes));
  sha_file = some (hex_sha256 params data_bytes);
}

-- Three snapshots of group 7, not in the order of their indices.
abbrev pub disk : Disk
disk = (7, snapshot 30 3 (99 ∷ []) ∷ snapshot 10 1 (97 ∷ []) ∷ snapshot 20 2 (98 ∷ []) ∷ []) ∷ []

abbrev pub entry : ℕ → ℕ → Bytes → CatalogEntry
entry index term data_bytes = entry_of params (meta index term data_bytes) (dir_name index term)

abbrev pub listed : List CatalogEntry
listed = entry 30 3 (99 ∷ []) ∷ entry 10 1 (97 ∷ []) ∷ entry 20 2 (98 ∷ []) ∷ []

prune-Pruned_example :
    (d' : Disk) × (removed : List CatalogEntry) × (kept : List CatalogEntry) × (prune params
        (record { keep = 2 })
        7
        (calm disk)
      ≡ (ok tt, calm d'))
    × ((list params 7 (calm d')).0 ≡ ok kept)
    × Pruned params 2 listed removed kept
unfolding list list_entries lookup bytes_eq dir_name digits
prune-Pruned_example =
    prune-Pruned params (record { keep = 2 }) 7 disk listed refl
      ((refl, (refl, tt)), ((refl, tt), (tt, tt)))

abbrev pub two : SnapshotCatalog
two = record { keep = 2 }

abbrev pub front : Places params
front e es = ([], es, refl, refl)

-- A newer snapshot.
pub room : (data_bytes : Bytes) → Room params two 7 40 4 (dir_name 40 4) data_bytes disk listed
unfolding list list_entries lookup find_entry bytes_eq dir_name digits position_le has_name
room data_bytes = record {
  fresh = refl;
  entries = refl;
  older = (refl, (refl, (refl, tt)));
  unnamed = (refl, (refl, (refl, tt)));
}

-- The disk has one snapshot more than it may keep, and gets a fourth.
write-ReadsBack_example :
    (d' : Disk) × (write params two 7 40 4 (dir_name 40 4) (100 ∷ []) (calm disk)
      ≡ (ok (written params two 7 40 4 (dir_name 40 4) (100 ∷ [])), calm d'))
    × (read params 7 (dir_name 40 4) (calm d') ≡ (ok (some (100 ∷ [])), calm d'))
    × (latest params 7 (calm d')
        ≡ (ok (some (written params two 7 40 4 (dir_name 40 4) (100 ∷ []))), calm d'))
write-ReadsBack_example =
    write-ReadsBack params front two (omega arith) 7 40 4 (dir_name 40 4) (100 ∷ [])
      (put_meta (meta_of params two 7 40 4 (dir_name 40 4) (100 ∷ []))) refl disk listed
      (room (100 ∷ []))
