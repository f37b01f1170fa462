-- ===== src/Log/Memory/Contents.antt =====
-- What the calls of the memory store do to the entry at each index.
use bf_multiraft.Base.{
  ℕ, ◌+◌, ◌<◌, ◌^◌, ◌≡◌, refl, Bool, true, false, not, ◌&&◌, Option, none, some, List, [], ◌∷◌,
  if◌then◌else◌, leb, ltb, ◌==◌, arith, ◌∙◌, ap, fun_ext,
}
use bf_multiraft.OrdMap.{
  OrdMap, Bound, unbounded, included, from_bound, to_bound, lookup, select, range, lookup-insert,
  lookup-select,
}
use bf_multiraft.OrdMap.Removal.{remove_all-select}
use bf_multiraft.RaftTypes.{RaftTypes}
use bf_multiraft.Log.Memory.{
  LogStoreInner, insert_entries, append, remove_range, truncate_after, purge, option_le, next_index,
}

module _ (C : RaftTypes) where
  -- What `truncate_after` keeps.
  abbrev pub kept : Option C.LogId → ℕ → Bool
  kept none i = false
  kept (some id) i = leb i (C.index id)

  -- `index() + 1` does not wrap.
  abbrev pub Fits : Option C.LogId → Type 0
  Fits none = Unit
  Fits (some id) = C.index id + 1 < 2 ^ 64

  -- The entry that a store holds at an index.
  abbrev pub entry_at : LogStoreInner C → ℕ → Option C.Entry
  entry_at s i = lookup i s.log

  -- The last entry of a batch with the index, if there is one.
  unfoldable pub last_with : ℕ → List C.Entry → Option C.Entry → Option C.Entry
  last_with i [] old = old
  last_with i (e ∷ es) old = last_with i es (if C.entry_index e == i then some e else old)

  lookup-insert_entries :
      (es : List C.Entry) (log : OrdMap C.Entry) (i : ℕ)
      → lookup i (insert_entries C es log) ≡ last_with i es (lookup i log)
  unfolding insert_entries last_with
  lookup-insert_entries [] log i = refl
  lookup-insert_entries (e ∷ es) log i = rw (lookup-insert_entries es, lookup-insert)

  -- After `append`, an index holds the batch's last entry for it, or what it held before.
  pub entry_at-append :
      (es : List C.Entry) (s : LogStoreInner C) (i : ℕ)
      → entry_at (append C es s) i ≡ last_with i es (entry_at s i)
  unfolding append
  entry_at-append es s i = lookup-insert_entries es s.log i

  pub remove_range-eq-select :
      (lo hi : Bound) (log : OrdMap C.Entry)
      → remove_range C lo hi log ≡ select (λ k. not (from_bound lo k && to_bound hi k)) log
  unfolding remove_range range
  remove_range-eq-select lo hi log = remove_all-select _ log

  -- `truncate_after` keeps the entries up to the given index and drops all others; with no log id
  -- it drops every entry. The index is below the last `u64`.
  pub entry_at-truncate_after :
      (id : Option C.LogId) (s : LogStoreInner C) (i : ℕ)
      → Fits id
      → entry_at (truncate_after C id s) i ≡ (if kept id i then entry_at s i else none)
  unfolding truncate_after
  entry_at-truncate_after none s i h = rw (remove_range-eq-select, lookup-select) (ground arith)
  entry_at-truncate_after (some id) s i h =
      rw (remove_range-eq-select, lookup-select) (ground arith)

  pub truncated-eq-select :
      (id : C.LogId) (log : OrdMap C.Entry)
      → Fits (some id)
      → remove_range C (included (next_index (C.index id))) unbounded log
        ≡ select (λ j. leb j (C.index id)) log
  truncated-eq-select id log h =
      remove_range-eq-select _ _ log ∙ ap (λ p. select p log) (fun_ext λ j. ground arith)

  pub purged-eq-select :
      (id : C.LogId) (log : OrdMap C.Entry)
      → remove_range C unbounded (included (C.index id)) log ≡ select (λ j. ltb (C.index id) j) log
  purged-eq-select id log =
      remove_range-eq-select _ _ log ∙ ap (λ p. select p log) (fun_ext λ j. ground arith)

  -- What a `purge` that passes its assertion leaves.
  pub purge-eq :
      (id : C.LogId) (s s' : LogStoreInner C)
      → purge C id s ≡ some s'
      → s' ≡ record s {
        last_purged_log_id = some id;
        log = remove_range C unbounded (included (C.index id)) s.log;
      }
  unfolding purge
  purge-eq id s s' h = ground arith

  lookup-purged :
      (id : C.LogId) (log : OrdMap C.Entry) (i : ℕ)
      → lookup i (remove_range C unbounded (included (C.index id)) log)
        ≡ (if ltb (C.index id) i then lookup i log else none)
  lookup-purged id log i = rw (remove_range-eq-select, lookup-select) (ground arith)

  -- A `purge` that passes its assertion records the log id, drops the entries up to its index and
  -- no others, and leaves the vote and the commit point alone.
  pub entry_at-purge :
      (id : C.LogId) (s s' : LogStoreInner C) (i : ℕ)
      → purge C id s ≡ some s'
      → (option_le C s.last_purged_log_id id ≡ true)
        × (s'.last_purged_log_id ≡ some id)
        × (entry_at s' i ≡ (if ltb (C.index id) i then entry_at s i else none))
        × (s'.vote ≡ s.vote)
        × (s'.committed ≡ s.committed)
  unfolding purge
  entry_at-purge id s s' i h = ground (arith, lookup-purged id s.log i)
