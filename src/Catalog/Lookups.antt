-- ===== src/Catalog/Lookups.antt =====
-- What the reads of the catalog promise, whatever faults the disk has.
use bf_multiraft.Base.{
  ℕ, ◌≡◌, refl, sym, subst, Bool, true, false, Bool-cases, some, List, [], ◌∷◌, inl, inr, Bytes,
  arith, bytes_eq, bytes_eq_iff, All, not, if◌then◌else◌,
}
use bf_multiraft.Io.{ok, err, Env, bind-ok, invalid_data, lift, pure}
use bf_multiraft.Catalog.Order.{
  Member, All-Member, IsTotal, IsSorted, sort_by, sort_by-All, sort_by-All_inv, sort_by-IsSorted,
}
use bf_multiraft.Catalog.{
  CatalogEntry, Disk, Params, position_le, list, latest, next, has_name, first_named, read_entry,
  read_file, check_digest, data_bin, hex_sha256,
}

pub position_le-IsTotal : (p : Params) → IsTotal (position_le p)
unfolding position_le
position_le-IsTotal p = record { total = λ a b h. ground arith; trans = λ a b c h k. ground arith }

-- `e` is the entry of `es` that comes last in the order of index and term.
pub record IsLatest (p : Params) (e : CatalogEntry) (es : List CatalogEntry) : Type 0 where
  pub listed : Member e es
  pub greatest : All (λ a. position_le p a e ≡ true) es

module _ (p : Params) where
  abbrev newest_first : CatalogEntry → CatalogEntry → Bool
  newest_first a b = position_le p b a

  newest_first-IsTotal : IsTotal newest_first
  newest_first-IsTotal = record {
    total = λ a b h. (position_le-IsTotal p).total b a h;
    trans = λ a b c h k. (position_le-IsTotal p).trans c b a k h;
  }

  position_le_refl : (a : CatalogEntry) → position_le p a a ≡ true
  unfolding position_le
  position_le_refl a = ground arith

  head-greatest :
      (xs : List CatalogEntry) (e : CatalogEntry)
      → IsSorted newest_first xs
      → next xs ≡ some e
      → All (λ a. position_le p a e ≡ true) xs × Member e xs
  head-greatest [] e h q = cc
  head-greatest (x ∷ xs) e h q =
      let r : x ≡ e = cc in
      subst (λ y. All (λ a. position_le p a y ≡ true) (x ∷ xs) × Member y (x ∷ xs)) r
        ((position_le_refl x, h.0), inl refl)

  Member-All :
      (P : CatalogEntry → Type 0) (xs : List CatalogEntry) (e : CatalogEntry)
      → All P xs
      → Member e xs
      → P e
  Member-All P [] e h m = elim m [ ]
  Member-All P (x ∷ xs) e h (inl q) = subst P (sym q) h.0
  Member-All P (x ∷ xs) e h (inr m) = Member-All P xs e h.1 m

  next_sorted-IsLatest :
      (es : List CatalogEntry) (e : CatalogEntry)
      → next (sort_by newest_first es) ≡ some e
      → IsLatest p e es
  next_sorted-IsLatest es e q =
      let (g, m) =
        head-greatest (sort_by newest_first es) e
          (sort_by-IsSorted newest_first newest_first-IsTotal es) q in
      record {
        listed =
            Member-All (λ a. Member a es) (sort_by newest_first es) e
              (sort_by-All (λ a. Member a es) newest_first es (All-Member es)) m;
        greatest = sort_by-All_inv (λ a. position_le p a e ≡ true) newest_first es g;
      }

  -- If `latest` gives a snapshot then `list` gave entries among which none has a greater index and
  -- term.
  pub latest-IsLatest :
      (group : ℕ) (w : Env Disk) (e : CatalogEntry)
      → (latest p group w).0 ≡ ok (some e)
      → (es : List CatalogEntry) × ((list p group w).0 ≡ ok es) × IsLatest p e es
  unfolding latest
  latest-IsLatest group w e h =
      let (es, l, q) =
        bind-ok (list p group) (λ es. pure (next (sort_by newest_first es))) w (some e) h in
      (es, l, next_sorted-IsLatest es e cc)

  pub first_named-has_name :
      (id : Bytes) (es : List CatalogEntry) (e : CatalogEntry)
      → first_named p id es ≡ some e
      → (has_name p id e ≡ true) × Member e es
  unfolding first_named
  first_named-has_name id [] e h = cc
  first_named-has_name id (x ∷ xs) e h = elim (Bool-cases (has_name p id x)) [
    | inl b ↦
        let q : x ≡ e = ground arith in
        subst (λ y. (has_name p id y ≡ true) × Member y (x ∷ xs)) q (b, inl refl)
    | inr b ↦ let r = first_named-has_name id xs e (ground arith) in (r.0, inr r.1)
  ]

  checked :
      (b : Bool) (d data_bytes : Bytes) (w : Env Disk)
      → ((if not b then lift (err invalid_data) else pure (some d)) w).0 ≡ ok (some data_bytes)
      → (b ≡ true) × (d ≡ data_bytes)
  checked true d data_bytes w h = (refl, cc)
  checked false d data_bytes w h = cc

  pub read_entry-hash :
      (group : ℕ) (e : CatalogEntry) (w : Env Disk) (data_bytes : Bytes)
      → (read_entry p group e w).0 ≡ ok (some data_bytes)
      → hex_sha256 p data_bytes ≡ e.sha256_hex
  read_entry-hash group e w data_bytes h =
      let (d, r, k) =
        bind-ok (read_file p group e.dir data_bin) (check_digest p e) w (some data_bytes) h in
      let (b, q) =
        checked (bytes_eq (hex_sha256 p d) e.sha256_hex) d data_bytes
          (read_file p group e.dir data_bin w).1 k in
      subst (λ x. hex_sha256 p x ≡ e.sha256_hex) q
        ((bytes_eq_iff (hex_sha256 p d) e.sha256_hex).0 b)
