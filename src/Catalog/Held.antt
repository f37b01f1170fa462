-- ===== src/Catalog/Held.antt =====
-- The directory of a group that holds a snapshot newer than all others: what the reads of the
-- catalog make of it, and that a prune leaves it.
use bf_multiraft.Base.{
  ℕ, ◌≤◌, ◌-◌, ◌≡◌, refl, sym, ap, ◌∙◌, subst, Bool, true, false, some, List, [], ◌∷◌, ◌++◌, All,
  length, Bytes, bytes_eq, bytes_eq_refl,
}
use bf_multiraft.OrdMap.{lookup}
use bf_multiraft.Io.{ok, calm}
use bf_multiraft.Core.Decimal.{dir_name}
use bf_multiraft.Catalog.Order.{without, sort_by, sort_by-All, All-take, All-impl}
use bf_multiraft.Catalog.Middle.{All-join, All-without, without-middle, sort_by-first}
use bf_multiraft.Catalog.{
  CatalogEntry, DirEntry, Disk, Params, SnapshotCatalog, entries_of, find_entry, hex_sha256, list,
  latest, find, has_name, read, position_le, prune,
}
use bf_multiraft.Catalog.Listed.{
  entry_result, parsed, list-calm, listed, without-listed, All-listed, bytes_eq-flip,
}
use bf_multiraft.Catalog.Prune.{named, oldest, named-none}
use bf_multiraft.Catalog.Lookups.{position_le-IsTotal}
use bf_multiraft.Catalog.Written.{meta_of, written}
use bf_multiraft.Catalog.Beside.{NoneNamed, find_entry-middle, listed-middle, first_named-middle}
use bf_multiraft.Catalog.Spared.{prune-calm, oldest-spares}

module _ (p : Params) (catalog : SnapshotCatalog) (keeps : 1 ≤ catalog.keep) (group index term : ℕ)
    (id bytes meta_bytes : Bytes)
    (encoded : p.meta_codec.to_vec (meta_of p catalog group index term id bytes)
      ≡ some meta_bytes) where
  abbrev pub dir : Bytes
  dir = dir_name index term

  abbrev pub new : CatalogEntry
  new = written p catalog group index term id bytes

  abbrev pub new_dir : DirEntry
  new_dir = record {
    name = dir;
    is_dir = true;
    data_file = some bytes;
    meta_file = some meta_bytes;
    sha_file = some (hex_sha256 p bytes ++ (10 ∷ []));
  }

  pub new_dir-entry : entry_result p true (some meta_bytes) dir ≡ ok (some new)
  new_dir-entry =
      ap (parsed p dir)
        (p.meta_codec.round_trip (meta_of p catalog group index term id bytes) meta_bytes encoded)

  -- What the group's directory holds decides what is read: the new entry among others.
  pub record Holds (d : Disk) : Type 0 where
    pub before : List DirEntry
    pub after : List DirEntry
    pub older_before : List CatalogEntry
    pub older_after : List CatalogEntry
    pub here : entries_of group d ≡ before ++ (new_dir ∷ after)
    pub before_names : NoneNamed dir before
    pub after_names : NoneNamed dir after
    pub before_listed : listed p before ≡ ok older_before
    pub after_listed : listed p after ≡ ok older_after
    pub before_older : All (λ a. position_le p new a ≡ false) older_before
    pub after_older : All (λ a. position_le p new a ≡ false) older_after
    pub before_unnamed : All (λ a. has_name p id a ≡ false) older_before

  Holds-listed :
      (d : Disk) (h : Holds d)
      → listed p (entries_of group d) ≡ ok (h.older_before ++ (new ∷ h.older_after))
  Holds-listed d h =
      ap (listed p) h.here
      ∙ listed-middle p h.before h.after h.older_before h.older_after new_dir new h.before_listed
          new_dir-entry h.after_listed

  Holds-list :
      (d : Disk) (h : Holds d)
      → list p group (calm d) ≡ (ok (h.older_before ++ (new ∷ h.older_after)), calm d)
  Holds-list d h = list-calm p group d ∙ ap (λ r. (r, calm d)) (Holds-listed d h)

  has_name-new : has_name p id new ≡ true
  unfolding has_name
  has_name-new = rw (bytes_eq_refl id) refl

  pub Holds-read : (d : Disk) → Holds d → read p group id (calm d) ≡ (ok (some bytes), calm d)
  unfolding read find find_entry lookup
  Holds-read d h =
      rw
        (
          Holds-list d h,
          first_named-middle p id h.older_before h.older_after new h.before_unnamed has_name-new,
          h.here,
          find_entry-middle dir new_dir (bytes_eq_refl dir) h.before h.after h.before_names,
          bytes_eq_refl (hex_sha256 p bytes),
        )
        refl

  pub Holds-latest : (d : Disk) → Holds d → latest p group (calm d) ≡ (ok (some new), calm d)
  unfolding latest
  Holds-latest d h =
      rw
        (
          Holds-list d h,
          sort_by-first (λ a b. position_le p b a) new h.older_before h.older_after h.before_older
              (All-impl h.older_after (λ a q. (position_le-IsTotal p).total new a q) h.after_older),
        )
        refl

  other_dirs :
      (es : List DirEntry) (cs : List CatalogEntry)
      → NoneNamed dir es
      → listed p es ≡ ok cs
      → All (λ c. bytes_eq dir c.dir ≡ false) cs
  other_dirs es cs h k =
      All-listed p (λ n. bytes_eq dir n ≡ false) es cs k
        (All-impl es (λ e q. bytes_eq-flip e.name dir q) h)

  -- The entries that a prune removes from a directory that holds the new entry.
  abbrev removed : (d : Disk) → Holds d → List CatalogEntry
  removed d h =
      let es = h.older_before ++ (new ∷ h.older_after) in oldest p (length es - catalog.keep) es

  removed-spares : (d : Disk) (h : Holds d) → named p (removed d h) dir ≡ false
  removed-spares d h =
      let es = h.older_before ++ (new ∷ h.older_after) in
      let others = h.older_before ++ h.older_after in
      named-none p dir (removed d h) (
        subst (All (λ c. bytes_eq dir c.dir ≡ false))
          (sym (
            oldest-spares p catalog.keep new h.older_before h.older_after keeps h.before_older
              h.after_older))
          (All-take _ (length es - catalog.keep) (sort_by (position_le p) others) (
            sort_by-All _ (position_le p) others (
              All-join _ h.older_before h.older_after
                (other_dirs h.before h.older_before h.before_names h.before_listed)
                (other_dirs h.after h.older_after h.after_names h.after_listed)))))

  -- A prune of a directory that holds the new entry among older ones leaves it there.
  pub prune-Holds :
      (d : Disk) (h : Holds d)
      → (d' : Disk) × (prune p catalog group (calm d) ≡ (ok tt, calm d')) × Holds d'
  prune-Holds d h =
      let (d', q, s) =
        prune-calm p catalog group d (h.older_before ++ (new ∷ h.older_after)) (Holds-listed d h) in
      let gone : Bytes → Bool = named p (removed d h) in
      let kept : List CatalogEntry → List CatalogEntry = without (λ c. gone c.dir) in
      (
        d',
        q,
        record {
          before = without (λ e. gone e.name) h.before;
          after = without (λ e. gone e.name) h.after;
          older_before = kept h.older_before;
          older_after = kept h.older_after;
          here =
              s
              ∙ ap (without (λ e. gone e.name)) h.here
              ∙ without-middle (λ e. gone e.name) h.before new_dir h.after (removed-spares d h);
          before_names = All-without _ _ h.before h.before_names;
          after_names = All-without _ _ h.after h.after_names;
          before_listed = without-listed p gone h.before h.older_before h.before_listed;
          after_listed = without-listed p gone h.after h.older_after h.after_listed;
          before_older = All-without _ _ h.older_before h.before_older;
          after_older = All-without _ _ h.older_after h.after_older;
          before_unnamed = All-without _ _ h.older_before h.before_unnamed;
        },
      )
