-- ===== src/Log/Memory/Reads.antt =====
-- Reading a range of the log.
use bf_multiraft.Base.{
  ℕ, zero, suc, ◌+◌, ◌<◌, ◌≡◌, refl, Bool, ◌&&◌, Option, none, some, List, [], ◌∷◌, leb, ltb, arith,
  ◌∙◌, ap,
}
use bf_multiraft.OrdMap.{OrdMap, included, excluded, lookup, select, range, range_panics, values}
use bf_multiraft.OrdMap.Order.{Above, lookup-under}
use bf_multiraft.RaftTypes.{RaftTypes}
use bf_multiraft.Log.Memory.{LogStoreInner, try_get_log_entries}
use bf_multiraft.Log.Memory.Contents.{entry_at}
use bf_multiraft.Log.Memory.Invariant.{IsLog}

-- The `n` numbers from `a` on.
abbrev pub count_up : ℕ → ℕ → List ℕ
count_up a zero = []
count_up a (suc n) = a ∷ count_up (suc a) n

abbrev between : ℕ → ℕ → ℕ → Bool
between a b k = leb a k && ltb k b

module _ {V : Type 0} where
  abbrev pub cons_some : Option V → List V → List V
  cons_some none xs = xs
  cons_some (some x) xs = x ∷ xs

  -- The values present at the given keys, in the order of the keys.
  abbrev pub collect : (ℕ → Option V) → List ℕ → List V
  collect f [] = []
  collect f (k ∷ ks) = cons_some (f k) (collect f ks)

  select_skip :
      (m : OrdMap V) (n a b : ℕ)
      → a < n
      → Above n m
      → select (between a b) m ≡ select (between (suc a) b) m
  unfolding select
  select_skip [] n a b h o = refl
  select_skip ((k, v) ∷ m) n a b h o = ground (arith, select_skip m (suc k) a b (omega arith) o.1)

  select_next :
      (m : OrdMap V) (n a b : ℕ)
      → a < b
      → Above n m
      → values (select (between a b) m)
        ≡ cons_some (lookup a m) (values (select (between (suc a) b) m))
  unfolding select lookup
  select_next [] n a b h o = refl
  select_next ((k, v) ∷ m) n a b h o = ground (
    arith,
    select_next m (suc k) a b h o.1,
    select_skip m (suc k) a b,
    lookup-under (suc k) a m o.1,
  )

  select_none : (m : OrdMap V) (a : ℕ) → select (between a a) m ≡ []
  unfolding select
  select_none [] a = refl
  select_none ((k, v) ∷ m) a = ground (arith, select_none m a)

  range-collect :
      (m : OrdMap V) (a n : ℕ)
      → Above 0 m
      → values (select (between a (a + n)) m) ≡ collect (λ k. lookup k m) (count_up a n)
  range-collect m a zero o = let e : a + 0 ≡ a = omega arith in rw (e, select_none)
  range-collect m a (suc n) o =
      let e : a + suc n ≡ suc a + n = omega arith in
      rw e (
        select_next m 0 a (suc a + n) (omega arith) o
        ∙ ap (cons_some (lookup a m)) (range-collect m (suc a) n o))

module _ (C : RaftTypes) where
  -- Reading the indices from `a` up to but not including `a + n` does not panic, and gives the
  -- entries that the store holds at these indices, each once and in ascending order.
  pub try_get_log_entries-collect :
      (s : LogStoreInner C) (a n : ℕ)
      → IsLog C s.log
      → try_get_log_entries C (included a) (excluded (a + n)) s
        ≡ some (collect (entry_at C s) (count_up a n))
  unfolding try_get_log_entries range range_panics
  try_get_log_entries-collect s a n h = ground (arith, range-collect s.log a n h.ascending)
