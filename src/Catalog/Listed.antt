-- ===== src/Catalog/Listed.antt =====
-- What the loop over a group's directory lists, on a disk without faults.
use bf_multiraft.Base.{
  bytes_eq, bytes_eq_iff, All, ℕ, ◌≡◌, refl, sym, subst, Bool, true, false, Bool-cases, Option,
  Option-cases, none, some, List, [], ◌∷◌, ◌⊎◌, inl, inr, Bytes, retain, of_some,
}
use bf_multiraft.OrdMap.{lookup}
use bf_multiraft.Io.{IoResult, ok, err, pure, continue, calm, of_ok, invalid_data}
use bf_multiraft.Catalog.Apart.{Apart}
use bf_multiraft.Catalog.Order.{without}
use bf_multiraft.Catalog.{
  CatalogEntry, MetaFile, Disk, DirEntry, Params, list, list_entries, entries_of, entry_of,
}

abbrev pub add_entry :
    IoResult (Option CatalogEntry) → IoResult (List CatalogEntry) → IoResult (List CatalogEntry)
add_entry (err e) r = err e
add_entry (ok none) r = r
add_entry (ok (some c)) (ok cs) = ok (c ∷ cs)
add_entry (ok (some c)) (err e) = err e

pub add_entry-ok :
    (r : IoResult (Option CatalogEntry)) (rs : IoResult (List CatalogEntry))
    (cs : List CatalogEntry)
    → add_entry r rs ≡ ok cs
    → ((r ≡ ok none) × (rs ≡ ok cs))
      ⊎ ((c : CatalogEntry) × (cs' : List CatalogEntry) × (r ≡ ok (some c))
          × (rs ≡ ok cs')
          × (cs ≡ c ∷ cs'))
add_entry-ok (err x) rs cs h = cc
add_entry-ok (ok none) rs cs h = inl (refl, h)
add_entry-ok (ok (some c)) (ok cs') cs h = inr (c, cs', refl, refl, cc)
add_entry-ok (ok (some c)) (err x) cs h = cc

pub bytes_eq-flip : (a b : Bytes) → bytes_eq a b ≡ false → bytes_eq b a ≡ false
bytes_eq-flip a b h = elim (Bool-cases (bytes_eq b a)) [
  | inl e ↦ let q = (bytes_eq_iff a b).1 (sym ((bytes_eq_iff b a).0 e)) in cc
  | inr e ↦ e
]

module _ (p : Params) where
  abbrev pub parsed : Bytes → Option MetaFile → IoResult (Option CatalogEntry)
  parsed name none = err invalid_data
  parsed name (some meta) = ok (some (entry_of p meta name))

  -- What one entry of the directory adds to the list.
  abbrev pub entry_result : Bool → Option Bytes → Bytes → IoResult (Option CatalogEntry)
  entry_result false meta name = ok none
  entry_result true none name = ok none
  entry_result true (some b) name = parsed name (p.meta_codec.from_slice b)

  unfoldable pub listed : List DirEntry → IoResult (List CatalogEntry)
  listed [] = ok []
  listed (e ∷ es) = add_entry (entry_result e.is_dir e.meta_file e.name) (listed es)

  add_calm :
      (c : CatalogEntry) (r : IoResult (List CatalogEntry)) (d : Disk)
      → continue r (λ out. pure (c ∷ out)) (calm d) ≡ (add_entry (ok (some c)) r, calm d)
  add_calm c (ok cs) d = refl
  add_calm c (err e) d = refl

  list_entries-calm :
      (es : List DirEntry) (d : Disk) → list_entries p es (calm d) ≡ (listed es, calm d)
  unfolding list_entries listed
  list_entries-calm [] d = refl
  list_entries-calm (e ∷ es) d = elim (Bool-cases e.is_dir) [
    | inr h ↦ rw (h, list_entries-calm es d) refl
    | inl h ↦ elim (Option-cases e.meta_file) [
      | inl m ↦ rw (h, m, list_entries-calm es d) refl
      | inr (b, m) ↦ elim (Option-cases (p.meta_codec.from_slice b)) [
        | inl f ↦ rw (h, m, f) refl
        | inr (meta, f) ↦
            rw (h, m, f, list_entries-calm es d) (add_calm (entry_of p meta e.name) (listed es) d)
      ]
    ]
  ]

  pub list-calm :
      (group : ℕ) (d : Disk) → list p group (calm d) ≡ (listed (entries_of group d), calm d)
  unfolding list listed
  list-calm group d = elim (Option-cases (lookup group d)) [
    | inl h ↦ rw h refl
    | inr (es, h) ↦ rw (h, list_entries-calm (entries_of group d) d, h) refl
  ]

  parsed-dir :
      (name : Bytes) (o : Option MetaFile) (c : CatalogEntry)
      → parsed name o ≡ ok (some c)
      → name ≡ c.dir
  parsed-dir name none c h = cc
  parsed-dir name (some meta) c h =
      let q : some (entry_of p meta name) ≡ some c =
        of_ok (λ x. some (entry_of p meta name) ≡ x) h refl in
      of_some (λ x. name ≡ x.dir) q refl

  pub entry_result-dir :
      (b : Bool) (meta : Option Bytes) (name : Bytes) (c : CatalogEntry)
      → entry_result b meta name ≡ ok (some c)
      → name ≡ c.dir
  entry_result-dir false meta name c h = cc
  entry_result-dir true none name c h = cc
  entry_result-dir true (some b) name c h = parsed-dir name (p.meta_codec.from_slice b) c h

  pub without-listed :
      (test : Bytes → Bool) (es : List DirEntry) (cs : List CatalogEntry)
      → listed es ≡ ok cs
      → listed (without (λ e. test e.name) es) ≡ ok (without (λ c. test c.dir) cs)
  unfolding listed without retain
  without-listed test [] cs h = of_ok (λ x. ok [] ≡ ok (without (λ c. test c.dir) x)) h refl
  without-listed test (e ∷ es) cs h =
      elim (add_entry-ok (entry_result e.is_dir e.meta_file e.name) (listed es) cs h) [
        | inl (r, s) ↦ elim (Bool-cases (test e.name)) [
          | inl b ↦ rw b (without-listed test es cs s)
          | inr b ↦ rw (b, r, without-listed test es cs s) refl
        ]
        | inr (c, cs', r, s, q) ↦
            let n = entry_result-dir e.is_dir e.meta_file e.name c r in
            subst
              (λ x. listed (without (λ e. test e.name) (e ∷ es)) ≡ ok (without (λ c. test c.dir) x))
              (sym q)
              (elim (Bool-cases (test e.name)) [
                | inl b ↦
                    let b' : test c.dir ≡ true = subst (λ x. test x ≡ true) n b in
                    rw (b, b') (without-listed test es cs' s)
                | inr b ↦
                    let b' : test c.dir ≡ false = subst (λ x. test x ≡ false) n b in
                    rw (b, b', r, without-listed test es cs' s) refl
              ])
      ]

  -- What holds of the names holds of the directories in the list.
  pub All-listed :
      (P : Bytes → Type 0) (es : List DirEntry) (cs : List CatalogEntry)
      → listed es ≡ ok cs
      → All (λ e. P e.name) es
      → All (λ c. P c.dir) cs
  unfolding listed
  All-listed P [] cs h k = of_ok (λ t. All (λ c. P c.dir) t) h tt
  All-listed P (e ∷ es) cs h k =
      elim (add_entry-ok (entry_result e.is_dir e.meta_file e.name) (listed es) cs h) [
        | inl (r, s) ↦ All-listed P es cs s k.1
        | inr (c, cs', r, s, q) ↦
            subst (λ t. All (λ c. P c.dir) t) (sym q)
              (
                subst P (entry_result-dir e.is_dir e.meta_file e.name c r) k.0,
                All-listed P es cs' s k.1,
              )
      ]

  -- Entries with different names are listed with different directories.
  pub listed-Apart :
      (es : List DirEntry) (cs : List CatalogEntry)
      → listed es ≡ ok cs
      → Apart (λ a b. bytes_eq a.name b.name ≡ false) es
      → Apart (λ a b. bytes_eq a.dir b.dir ≡ false) cs
  unfolding listed
  listed-Apart [] cs h k = of_ok (Apart (λ a b. bytes_eq a.dir b.dir ≡ false)) h tt
  listed-Apart (e ∷ es) cs h k =
      elim (add_entry-ok (entry_result e.is_dir e.meta_file e.name) (listed es) cs h) [
        | inl (r, s) ↦ listed-Apart es cs s k.1
        | inr (c, cs', r, s, q) ↦ subst (Apart (λ a b. bytes_eq a.dir b.dir ≡ false)) (sym q) (
          subst (λ n. All (λ b. bytes_eq n b.dir ≡ false) cs')
              (entry_result-dir e.is_dir e.meta_file e.name c r)
              (All-listed (λ n. bytes_eq e.name n ≡ false) es cs' s k.0),
          listed-Apart es cs' s k.1,
        )
      ]
