-- ===== src/Catalog/Prune.antt =====
-- Pruning on a disk without faults: how many snapshots remain, and which.
use bf_multiraft.Base.{
  ℕ, ◌≤◌, ◌-◌, ◌≡◌, refl, sym, ap, ◌∙◌, Bool, true, false, Bool-cases, List, [], ◌∷◌, ◌⊎◌, inl, inr,
  Bytes, arith, bytes_eq, All, not, retain, length, leb, ◌||◌, take, drop, if◌then◌else◌,
  bytes_eq_refl,
}
use bf_multiraft.OrdMap.{lookup-insert}
use bf_multiraft.Io.{ok, calm}
use bf_multiraft.Catalog.Apart.{Apart, sort_by-Apart, take-drop}
use bf_multiraft.Catalog.Order.{
  Member, All-Member, All-impl, sort_by, sort_by-All, sort_by-All_inv, sort_by-IsSorted,
  sort_by-length, length-sort_by, All-take, All-any, take-length_eq, take-IsSorted, without,
  All-retain,
}
use bf_multiraft.Catalog.{
  CatalogEntry, Disk, DirEntry, Params, SnapshotCatalog, position_le, list, entries_of, prune,
  remove_dirs, remove_dir_all, drop_entry,
}
use bf_multiraft.Catalog.Lookups.{position_le-IsTotal}
use bf_multiraft.Catalog.Listed.{listed, list-calm, without-listed, listed-Apart, bytes_eq-flip}

pub without_none : {A : Type 0} (xs : List A) → without (λ x. false) xs ≡ xs
unfolding without retain
without_none [] = refl
without_none (x ∷ xs) = ap (λ ys. x ∷ ys) (without_none xs)

module _ (p : Params) where
  -- Whether the directory of one of the entries has that name.
  unfoldable pub named : List CatalogEntry → Bytes → Bool
  named [] name = false
  named (c ∷ cs) name = bytes_eq name c.dir || named cs name

  without_two :
      (c : CatalogEntry) (cs : List CatalogEntry) (es : List DirEntry)
      → without (λ e. named cs e.name) (without (λ e. bytes_eq e.name c.dir) es)
        ≡ without (λ e. named (c ∷ cs) e.name) es
  unfolding without retain named
  without_two c cs [] = refl
  without_two c cs (e ∷ es) = ground (arith, without_two c cs es)

  entries_of-drop_entry :
      (group : ℕ) (name : Bytes) (d : Disk)
      → entries_of group (drop_entry p group name d)
        ≡ without (λ e. bytes_eq e.name name) (entries_of group d)
  entries_of-drop_entry group name d = ground (
    arith,
    lookup-insert group group (without (λ e. bytes_eq e.name name) (entries_of group d)) d,
  )

  pub remove_dirs-calm :
      (group : ℕ) (cs : List CatalogEntry) (d : Disk)
      → (d' : Disk) × (remove_dirs p group cs (calm d) ≡ (ok tt, calm d'))
        × (entries_of group d' ≡ without (λ e. named cs e.name) (entries_of group d))
  unfolding remove_dirs remove_dir_all named
  remove_dirs-calm group [] d = (d, refl, sym (without_none (entries_of group d)))
  remove_dirs-calm group (c ∷ cs) d =
      let (d', q, s) = remove_dirs-calm group cs (drop_entry p group c.dir d) in
      (
        d',
        q,
        s
            ∙ ap (without (λ e. named cs e.name)) (entries_of-drop_entry group c.dir d)
            ∙ without_two c cs (entries_of group d),
      )

  named-Member : (c : CatalogEntry) (cs : List CatalogEntry) → Member c cs → named cs c.dir ≡ true
  unfolding named
  named-Member c [] m = elim m [ ]
  named-Member c (x ∷ xs) (inl q) = ground (arith, bytes_eq_refl c.dir, q)
  named-Member c (x ∷ xs) (inr m) = ground (arith, named-Member c xs m)

  pub named-none :
      (name : Bytes) (cs : List CatalogEntry)
      → All (λ c. bytes_eq name c.dir ≡ false) cs
      → named cs name ≡ false
  unfolding named
  named-none name [] h = refl
  named-none name (c ∷ cs) h = rw h.0 (named-none name cs h.1)

  -- What a prune removes and what it leaves.
  pub record Pruned (keep : ℕ) (es removed kept : List CatalogEntry) : Type 0 where
    pub kept_eq : kept ≡ without (λ e. named removed e.dir) es
    pub count : length kept ≡ (if leb (length es) keep then length es else keep)
    pub removed_listed : All (λ r. Member r es) removed
    pub newest : All (λ e. All (λ r. position_le p r e ≡ true) removed) kept

  unfoldable pub oldest : ℕ → List CatalogEntry → List CatalogEntry
  oldest k es = take k (sort_by (position_le p) es)

  newer :
      (a : CatalogEntry) (removed : List CatalogEntry)
      → Member a removed ⊎ All (λ r. position_le p r a ≡ true) removed
      → not (named removed a.dir) ≡ true
      → All (λ r. position_le p r a ≡ true) removed
  newer a removed (inl m) h = ground (arith, named-Member a removed m)
  newer a removed (inr q) h = q

  -- Two entries have different directories.
  abbrev pub DirsDiffer : CatalogEntry → CatalogEntry → Type 0
  DirsDiffer a b = bytes_eq a.dir b.dir ≡ false

  flip : (a b : CatalogEntry) → DirsDiffer a b → DirsDiffer b a
  flip a b h = bytes_eq-flip a.dir b.dir h

  kept_count : (keep n : ℕ) {m : ℕ} → m ≡ n - (n - keep) → m ≡ (if leb n keep then n else keep)
  kept_count keep n h = ground (arith, h)

  oldest-Pruned :
      (keep : ℕ) (es : List CatalogEntry)
      → Apart DirsDiffer es
      → Pruned keep es
          (oldest (length es - keep) es)
          (without (λ e. named (oldest (length es - keep) es) e.dir) es)
  unfolding oldest without
  oldest-Pruned keep es apart =
      let sorted = sort_by (position_le p) es in
      let removed = take (length es - keep) sorted in
      let kept : CatalogEntry → Bool = λ e. not (named removed e.dir) in
      record {
        kept_eq = refl;
        count = kept_count keep (length es) (
            sym (sort_by-length kept (position_le p) es)
            ∙ take-length_eq kept (length es - keep) sorted
                (All-impl removed (λ c m. ground (arith, named-Member c removed m))
                  (All-Member removed))
                (All-impl (drop (length es - keep) sorted)
                  (λ c h. ground (arith, named-none c.dir removed h))
                  (take-drop DirsDiffer flip (length es - keep) sorted
                    (sort_by-Apart DirsDiffer flip (position_le p) es apart)))
            ∙ ap (λ n. n - (length es - keep)) (length-sort_by (position_le p) es));
        removed_listed =
            All-take (λ r. Member r es) (length es - keep) sorted
              (sort_by-All (λ r. Member r es) (position_le p) es (All-Member es));
        newest =
            All-retain (λ e. All (λ r. position_le p r e ≡ true) removed) kept es
              (sort_by-All_inv (λ e. kept e ≡ true → All (λ r. position_le p r e ≡ true) removed)
                (position_le p) es
                (All-impl sorted (λ a. newer a removed)
                  (take-IsSorted (position_le p) (position_le-IsTotal p) (length es - keep) sorted
                    (sort_by-IsSorted (position_le p) (position_le-IsTotal p) es))));
      }

  nothing-Pruned : (keep : ℕ) (es : List CatalogEntry) → length es ≤ keep → Pruned keep es [] es
  unfolding named
  nothing-Pruned keep es h = record {
    kept_eq = sym (without_none es);
    count = ground arith;
    removed_listed = tt;
    newest = All-any es (λ e. tt);
  }

  -- On a disk without faults, where the entries of a group's directory have different names and can
  -- be listed, a prune succeeds and leaves all of them, if they are at most `keep`, and exactly
  -- `keep` otherwise; none that is left is older than one that it removed.
  pub prune-Pruned :
      (catalog : SnapshotCatalog) (group : ℕ) (d : Disk) (es : List CatalogEntry)
      → (list p group (calm d)).0 ≡ ok es
      → Apart (λ a b. bytes_eq a.name b.name ≡ false) (entries_of group d)
      → (d' : Disk) × (removed : List CatalogEntry) × (kept : List CatalogEntry) × (prune p catalog
            group
            (calm d)
          ≡ (ok tt, calm d'))
        × ((list p group (calm d')).0 ≡ ok kept)
        × Pruned catalog.keep es removed kept
  unfolding prune oldest
  prune-Pruned catalog group d es h names =
      let l : listed p (entries_of group d) ≡ ok es =
        sym (ap (λ r. r.0) (list-calm p group d)) ∙ h in
      let q : list p group (calm d) ≡ (ok es, calm d) =
        list-calm p group d ∙ ap (λ r. (r, calm d)) l in
      let apart = listed-Apart p (entries_of group d) es l names in
      elim (Bool-cases (leb (length es) catalog.keep)) [
        | inl b ↦ (d, [], es, rw (q, b) refl, h, nothing-Pruned catalog.keep es (ground arith))
        | inr b ↦
            let (d', r, s) = remove_dirs-calm group (oldest (length es - catalog.keep) es) d in
            (
              d',
              oldest (length es - catalog.keep) es,
              _,
              rw (q, b) r,
              ap (λ r. r.0) (list-calm p group d')
                  ∙ ap (listed p) s
                  ∙ without-listed p (named (oldest (length es - catalog.keep) es))
                      (entries_of group d) es l,
              oldest-Pruned catalog.keep es apart,
            )
      ]
