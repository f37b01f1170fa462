-- ===== src/Catalog/Reading.antt =====
-- The reads of the catalog write nothing, and what a read of an id gives comes from a listed entry.
use bf_multiraft.Base.{
  ℕ, Bool, bytes_eq, ◌≡◌, refl, ◌∙◌, subst, true, false, Option, none, some, List, [], ◌∷◌, Bytes,
  not, if◌then◌else◌,
}
use bf_multiraft.Io.{
  Io, IoResult, IoError, Env, ok, err, bind-ok, of_ok, observe, lift, pure, continue, ◌>>=◌,
  Outcome, done, fails, next_outcome, on_read, invalid_data,
}
use bf_multiraft.OrdMap.{lookup}
use bf_multiraft.Catalog.Order.{Member}
use bf_multiraft.Catalog.{
  CatalogEntry, DirEntry, Disk, Params, data_bin, list, list_entries, latest, find, first_named,
  has_name, read, read_entry, read_found, read_file, file_at, check_digest, hex_sha256, exists,
  entries_of, ok_or,
}
use bf_multiraft.Catalog.Lookups.{first_named-has_name, read_entry-hash}

-- An operation that leaves the disk as it is.
abbrev pub Reads : {A : Type 0} → Io Disk A → Type 0
Reads m = (w : Env Disk) → (m w).1.disk ≡ w.disk

continue-disk :
    {A B : Type 0} (r : IoResult A) (f : A → Io Disk B) (w : Env Disk)
    → ((a : A) → Reads (f a))
    → (continue r f w).1.disk ≡ w.disk
continue-disk (ok a) f w h = h a w
continue-disk (err e) f w h = refl

bind-Reads :
    {A B : Type 0} (m : Io Disk A) (f : A → Io Disk B)
    → Reads m
    → ((a : A) → Reads (f a))
    → Reads (m >>= f)
bind-Reads m f h k w = continue-disk (m w).0 f (m w).1 k ∙ h w

observe-value : {A : Type 0} (o : Outcome) (a b : A) → on_read o a ≡ ok b → a ≡ b
observe-value done a b h = of_ok (λ x. a ≡ x) h refl
observe-value (fails left) a b h = cc

ok_or-some : (o : Option Bytes) (b : Bytes) → ok_or o IoError.not_found ≡ ok b → o ≡ some b
ok_or-some none b h = cc
ok_or-some (some a) b h = of_ok (λ x. some a ≡ some x) h refl

checked-data :
    (b : Bool) (d bytes : Bytes) (w : Env Disk)
    → ((if not b then lift (err invalid_data) else pure (some d)) w).0 ≡ ok (some bytes)
    → d ≡ bytes
checked-data true d bytes w h = cc
checked-data false d bytes w h = cc

if-Reads :
    {A : Type 0} (b : Bool) (m n : Io Disk A) → Reads m → Reads n → Reads (if b then m else n)
if-Reads true m n h k = h
if-Reads false m n h k = k

module _ (p : Params) where
  list_entries-Reads : (es : List DirEntry) → Reads (list_entries p es)
  unfolding list_entries
  list_entries-Reads [] = λ w. refl
  list_entries-Reads (e ∷ es) =
      let rest = list_entries-Reads es in
      bind-Reads (observe (λ _. e)) _ (λ w. refl)
        λ ent.
          bind-Reads (observe (λ _. ent.is_dir)) _ (λ w. refl)
            λ is_dir. if-Reads (not is_dir) (list_entries p es) _ rest (
              bind-Reads (exists p (λ _. ent.meta_file)) _ (λ w. refl)
                λ there. if-Reads (not there) (list_entries p es) _ rest (
                  bind-Reads (observe (λ _. ent.meta_file)) _ (λ w. refl)
                    λ found.
                      bind-Reads (lift (ok_or found IoError.not_found)) _ (λ w. refl)
                        λ meta_bytes.
                          bind-Reads
                            (lift (ok_or (p.meta_codec.from_slice meta_bytes) invalid_data)) _
                            (λ w. refl)
                            λ meta. bind-Reads (list_entries p es) _ rest λ out. λ w. refl))

  list-Reads : (group : ℕ) → Reads (list p group)
  unfolding list
  list-Reads group =
      bind-Reads (exists p (lookup group)) _ (λ w. refl)
        λ there.
          if-Reads (not there) (pure []) _ (λ w. refl)
            (bind-Reads (observe (entries_of group)) _ (λ w. refl) λ es. list_entries-Reads es)

  pub latest-Reads : (group : ℕ) → Reads (latest p group)
  unfolding latest
  latest-Reads group = bind-Reads (list p group) _ (list-Reads group) λ es. λ w. refl

  find-Reads : (group : ℕ) (id : Bytes) → Reads (find p group id)
  unfolding find
  find-Reads group id = bind-Reads (list p group) _ (list-Reads group) λ es. λ w. refl

  -- Where the bytes come from that a read of an id gives: the first listed entry with that id, or
  -- of that directory, the data file of its directory, and the digest that its meta file records.
  pub record IsRead (group : ℕ) (id : Bytes) (w : Env Disk) (bytes : Bytes) : Type 0 where
    pub entries : List CatalogEntry
    pub entries_listed : (list p group w).0 ≡ ok entries
    pub entry : CatalogEntry
    pub entry_first : first_named p id entries ≡ some entry
    pub entry_member : Member entry entries
    pub entry_named : has_name p id entry ≡ true
    pub bytes_stored : file_at p group entry.dir data_bin w.disk ≡ some bytes
    pub bytes_hash : hex_sha256 p bytes ≡ entry.sha256_hex

  read_file-stored :
      (group : ℕ) (name bytes : Bytes) (w : Env Disk)
      → (read_file p group name data_bin w).0 ≡ ok bytes
      → file_at p group name data_bin w.disk ≡ some bytes
  read_file-stored group name bytes w h =
      let (found, o, k) =
        bind-ok (observe (file_at p group name data_bin)) (λ f. lift (ok_or f IoError.not_found)) w
          bytes h in
      observe-value (next_outcome w.pending) _ found o ∙ ok_or-some found bytes k

  checked-same :
      (e : CatalogEntry) (d bytes : Bytes) (w : Env Disk)
      → (check_digest p e d w).0 ≡ ok (some bytes)
      → d ≡ bytes
  checked-same e d bytes w h = checked-data (bytes_eq (hex_sha256 p d) e.sha256_hex) d bytes w h

  read_entry-stored :
      (group : ℕ) (e : CatalogEntry) (w : Env Disk) (bytes : Bytes)
      → (read_entry p group e w).0 ≡ ok (some bytes)
      → file_at p group e.dir data_bin w.disk ≡ some bytes
  read_entry-stored group e w bytes h =
      let (d, r, k) =
        bind-ok (read_file p group e.dir data_bin) (check_digest p e) w (some bytes) h in
      subst (λ x. file_at p group e.dir data_bin w.disk ≡ some x)
        (checked-same e d bytes (read_file p group e.dir data_bin w).1 k)
        (read_file-stored group e.dir d w r)

  found-IsRead :
      (group : ℕ) (id : Bytes) (w v : Env Disk) (entries : List CatalogEntry)
      (o : Option CatalogEntry) (bytes : Bytes)
      → (list p group w).0 ≡ ok entries
      → first_named p id entries ≡ o
      → v.disk ≡ w.disk
      → (read_found p group o v).0 ≡ ok (some bytes)
      → IsRead group id w bytes
  found-IsRead group id w v entries none bytes l f q h = cc
  found-IsRead group id w v entries (some e) bytes l f q h =
      let (named, member) = first_named-has_name p id entries e f in
      record {
        entries = entries;
        entries_listed = l;
        entry = e;
        entry_first = f;
        entry_member = member;
        entry_named = named;
        bytes_stored =
            subst (λ d. file_at p group e.dir data_bin d ≡ some bytes) q
              (read_entry-stored group e v bytes h);
        bytes_hash = read_entry-hash p group e v bytes h;
      }

  -- Data that `read` gives, under any faults, is what the data file of the first listed entry of
  -- that id holds, and has the digest that its meta file records.
  pub read-IsRead :
      (group : ℕ) (id : Bytes) (w : Env Disk) (bytes : Bytes)
      → (read p group id w).0 ≡ ok (some bytes)
      → IsRead group id w bytes
  unfolding read find
  read-IsRead group id w bytes h =
      let (o, f, k) = bind-ok (find p group id) (read_found p group) w (some bytes) h in
      let (es, l, q) = bind-ok (list p group) (λ es. pure (first_named p id es)) w o f in
      found-IsRead group id w (find p group id w).1 es o bytes l
        (of_ok (λ x. first_named p id es ≡ x) q refl) (find-Reads group id w) k
