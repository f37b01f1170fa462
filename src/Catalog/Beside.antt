-- ===== src/Catalog/Beside.antt =====
-- The directory of a group with one new entry, which has another name than the entries around it.
use bf_multiraft.Base.{
  ◌≡◌, refl, sym, ap, ◌∙◌, subst, true, false, Bool-cases, none, some, List, [], ◌∷◌, ◌++◌, inl,
  inr, All, Bytes, bytes_eq, if◌then◌else◌,
}
use bf_multiraft.Io.{ok, of_ok}
use bf_multiraft.Catalog.{
  CatalogEntry, DirEntry, Params, find_entry, at_name, first_named, has_name,
}
use bf_multiraft.Catalog.Listed.{add_entry-ok, entry_result, listed}

-- None of the entries has that name.
abbrev pub NoneNamed : Bytes → List DirEntry → Type 0
NoneNamed name es = All (λ e. bytes_eq e.name name ≡ false) es

pub find_entry-NoneNamed :
    (name : Bytes) (es : List DirEntry) → find_entry name es ≡ none → NoneNamed name es
unfolding find_entry
find_entry-NoneNamed name [] h = tt
find_entry-NoneNamed name (e ∷ es) h = elim (Bool-cases (bytes_eq e.name name)) [
  | inl b ↦
      let q : (if true then some e else find_entry name es) ≡ none =
        subst (λ x. (if x then some e else find_entry name es) ≡ none) b h in
      cc
  | inr b ↦
      let q : (if false then some e else find_entry name es) ≡ none =
        subst (λ x. (if x then some e else find_entry name es) ≡ none) b h in
      (b, find_entry-NoneNamed name es q)
]

module _ (name : Bytes) (g : DirEntry) (g_name : bytes_eq g.name name ≡ true) where
  pub find_entry-middle :
      (xs ys : List DirEntry) → NoneNamed name xs → find_entry name (xs ++ (g ∷ ys)) ≡ some g
  unfolding find_entry
  find_entry-middle [] ys h = rw g_name refl
  find_entry-middle (x ∷ xs) ys h = rw h.0 (find_entry-middle xs ys h.1)

  at_name-none :
      (f : DirEntry → DirEntry) (xs : List DirEntry) → NoneNamed name xs → at_name name f xs ≡ xs
  at_name-none f [] h = refl
  at_name-none f (x ∷ xs) h = rw h.0 (ap (λ ys. x ∷ ys) (at_name-none f xs h.1))

  pub at_name-middle :
      (f : DirEntry → DirEntry) (xs ys : List DirEntry)
      → NoneNamed name xs
      → NoneNamed name ys
      → at_name name f (xs ++ (g ∷ ys)) ≡ xs ++ (f g ∷ ys)
  at_name-middle f [] ys h k = rw g_name (ap (λ zs. f g ∷ zs) (at_name-none f ys k))
  at_name-middle f (x ∷ xs) ys h k = rw h.0 (ap (λ zs. x ∷ zs) (at_name-middle f xs ys h.1 k))

module _ (p : Params) where
  pub listed-split :
      (xs ys : List DirEntry) (cs : List CatalogEntry)
      → listed p (xs ++ ys) ≡ ok cs
      → (cs1 : List CatalogEntry) × (cs2 : List CatalogEntry) × (listed p xs ≡ ok cs1)
        × (listed p ys ≡ ok cs2)
        × (cs ≡ cs1 ++ cs2)
  unfolding listed
  listed-split [] ys cs h = ([], cs, refl, h, refl)
  listed-split (x ∷ xs) ys cs h =
      elim (add_entry-ok (entry_result p x.is_dir x.meta_file x.name) (listed p (xs ++ ys)) cs h) [
        | inl (r, s) ↦
            let (cs1, cs2, a, b, q) = listed-split xs ys cs s in (cs1, cs2, rw (r, a) refl, b, q)
        | inr (c, cs', r, s, q) ↦
            let (cs1, cs2, a, b, q') = listed-split xs ys cs' s in
            (c ∷ cs1, cs2, rw (r, a) refl, b, q ∙ ap (λ t. c ∷ t) q')
      ]

  pub listed-middle :
      (xs ys : List DirEntry) (cs1 cs2 : List CatalogEntry) (g : DirEntry) (c : CatalogEntry)
      → listed p xs ≡ ok cs1
      → entry_result p g.is_dir g.meta_file g.name ≡ ok (some c)
      → listed p ys ≡ ok cs2
      → listed p (xs ++ (g ∷ ys)) ≡ ok (cs1 ++ (c ∷ cs2))
  unfolding listed
  listed-middle [] ys cs1 cs2 g c h k l =
      of_ok (λ t. listed p (g ∷ ys) ≡ ok (t ++ (c ∷ cs2))) h (rw (k, l) refl)
  listed-middle (x ∷ xs) ys cs1 cs2 g c h k l =
      elim (add_entry-ok (entry_result p x.is_dir x.meta_file x.name) (listed p xs) cs1 h) [
        | inl (r, s) ↦ rw (r, listed-middle xs ys cs1 cs2 g c s k l) refl
        | inr (d, ds, r, s, q) ↦
            rw (r, listed-middle xs ys ds cs2 g c s k l) (ap (λ t. ok (t ++ (c ∷ cs2))) (sym q))
      ]

  pub first_named-middle :
      (id : Bytes) (cs1 cs2 : List CatalogEntry) (c : CatalogEntry)
      → All (λ a. has_name p id a ≡ false) cs1
      → has_name p id c ≡ true
      → first_named p id (cs1 ++ (c ∷ cs2)) ≡ some c
  unfolding first_named
  first_named-middle id [] cs2 c h k = rw k refl
  first_named-middle id (a ∷ cs1) cs2 c h k = rw h.0 (first_named-middle id cs1 cs2 c h.1 k)
