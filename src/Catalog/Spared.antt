-- ===== src/Catalog/Spared.antt =====
-- What a prune leaves when one entry is newer than all others.
use bf_multiraft.Base.{
  ℕ, zero, ◌≤◌, ◌-◌, ◌≡◌, refl, sym, ap, ◌∙◌, false, Bool-cases, List, [], ◌∷◌, ◌++◌, inl, inr,
  arith, All, length, take, leb,
}
use bf_multiraft.OrdMap.{insert, lookup-insert}
use bf_multiraft.Io.{ok, calm}
use bf_multiraft.Catalog.Order.{without, sort_by, All-impl, length-sort_by}
use bf_multiraft.Catalog.Middle.{sort_by-last, length-middle, take-before}
use bf_multiraft.Catalog.{
  CatalogEntry, DirEntry, Disk, Params, SnapshotCatalog, entries_of, list, position_le, prune,
}
use bf_multiraft.Catalog.Listed.{list-calm, listed}
use bf_multiraft.Catalog.Prune.{named, oldest, remove_dirs-calm, without_none}
use bf_multiraft.Catalog.Lookups.{position_le-IsTotal}

pub entries_of-insert :
    (group : ℕ) (es : List DirEntry) (d : Disk) → entries_of group (insert group es d) ≡ es
entries_of-insert group es d = ground (arith, lookup-insert group group es d)

-- What a prune removes from the disk.
pub prune-calm :
    (p : Params) (catalog : SnapshotCatalog) (group : ℕ) (d : Disk) (es : List CatalogEntry)
    → listed p (entries_of group d) ≡ ok es
    → (d' : Disk) × (prune p catalog group (calm d) ≡ (ok tt, calm d'))
      × (entries_of group d'
          ≡ without
              (λ e. named p (oldest p (length es - catalog.keep) es) e.name)
              (entries_of group d))
unfolding prune oldest named
prune-calm p catalog group d es h =
    let q : list p group (calm d) ≡ (ok es, calm d) =
      list-calm p group d ∙ ap (λ r. (r, calm d)) h in
    elim (Bool-cases (leb (length es) catalog.keep)) [
      | inl b ↦
          let z : length es - catalog.keep ≡ zero = ground arith in
          (d, rw (q, b) refl, rw z (sym (without_none (entries_of group d))))
      | inr b ↦
          let (d', r, s) = remove_dirs-calm p group (oldest p (length es - catalog.keep) es) d in
          (d', rw (q, b) r, s)
    ]

-- A list in which `c` has a greater index and term than all others loses others first.
pub oldest-spares :
    (p : Params) (keep : ℕ) (c : CatalogEntry) (xs ys : List CatalogEntry)
    → 1 ≤ keep
    → All (λ a. position_le p c a ≡ false) xs
    → All (λ a. position_le p c a ≡ false) ys
    → oldest p (length (xs ++ (c ∷ ys)) - keep) (xs ++ (c ∷ ys))
      ≡ take (length (xs ++ (c ∷ ys)) - keep) (sort_by (position_le p) (xs ++ ys))
unfolding oldest
oldest-spares p keep c xs ys h k l =
    let n = length (xs ++ (c ∷ ys)) - keep in
    ap (take n) (
      sort_by-last (position_le p) c xs ys
        (All-impl xs (λ a q. (q, (position_le-IsTotal p).total c a q)) k) l)
    ∙ take-before n (sort_by (position_le p) (xs ++ ys)) (c ∷ [])
        (omega (arith, length-middle xs c ys, length-sort_by (position_le p) (xs ++ ys)))
