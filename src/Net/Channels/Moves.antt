-- ===== src/Net/Channels/Moves.antt =====
-- What a step of `channel_for` does to the cache and to the metrics.
use bf_multiraft.Base.{
  ℕ, ◌≡◌, refl, true, Bool-cases, ◌⊎◌, Option, none, some, arith, inl, inr, ◌==◌, ==_iff,
}
use bf_multiraft.OrdMap.{OrdMap, lookup, insert, contains_key}
use bf_multiraft.OrdMap.Order.{Above, insert-Above}
use bf_multiraft.OrdMap.Keys.{contains_key-insert, contains_key-found}
use bf_multiraft.Core.{SocketAddr}
use bf_multiraft.Net.Router.{record_peer}
use bf_multiraft.Net.Channels.{
  GrpcRouter, Stage, starts, connects, connected, records, returned, failed, look_up, channel_for,
  insert_or_reuse, await_connect,
}

abbrev pub IsCached : ℕ → GrpcRouter → Type 0
IsCached p r = contains_key p r.channels ≡ true

abbrev pub IsRecorded : ℕ → GrpcRouter → Type 0
IsRecorded p r = contains_key p r.metrics.peers ≡ true

abbrev pub IsPeer : ℕ → GrpcRouter → Type 0
IsPeer p r = contains_key p r.peers ≡ true

-- A task is about to record its peer.
abbrev pub AtRecords : Stage → Type 0
AtRecords (records ch) = Unit
AtRecords _ = ⊥

-- A task connects to a configured peer, and records one whose channel is cached.
abbrev pub Knows : GrpcRouter → ℕ → Stage → Type 0
Knows r peer (connects addr) = IsPeer peer r
Knows r peer (connected ch) = IsPeer peer r
Knows r peer (records ch) = IsPeer peer r × IsCached peer r
Knows r peer _ = Unit

-- The maps ascend.
abbrev pub Sorted : GrpcRouter → Type 0
Sorted r = Above 0 r.channels × Above 0 r.metrics.peers

-- What a step of a task for `peer` does to the router.
abbrev pub Moves : ℕ → GrpcRouter → Stage → GrpcRouter × Stage → Type 0
Moves peer r stage (r', stage') =
    (r'.peers ≡ r.peers)
    × ((p : ℕ) → IsCached p r' → IsCached p r ⊎ ((peer ≡ p) × AtRecords stage'))
    × ((p : ℕ) → IsCached p r → IsCached p r')
    × ((p : ℕ) → IsRecorded p r → IsRecorded p r')
    × ((p : ℕ) → IsRecorded p r' → IsRecorded p r ⊎ ((peer ≡ p) × AtRecords stage))
    × (AtRecords stage → IsRecorded peer r')
    × Knows r' peer stage'
    × (Sorted r → Sorted r')

-- A step that leaves the router alone, from a stage that does not record.
still-Moves :
    (peer : ℕ) (r : GrpcRouter) (stage stage' : Stage)
    → (AtRecords stage → ⊥)
    → Knows r peer stage'
    → Moves peer r stage (r, stage')
still-Moves peer r stage stage' quiet knows = (
  refl,
  (λ p h. inl h),
  (λ p h. h),
  (λ p h. h),
  (λ p h. inl h),
  (λ h. elim (quiet h) [ ]),
  knows,
  λ h. h,
)

split_key :
    {V : Type 0} (key at : ℕ) (v : V) (m : OrdMap V)
    → contains_key at (insert key v m) ≡ true
    → (contains_key at m ≡ true) ⊎ (key ≡ at)
split_key key at v m h = elim (Bool-cases (key == at)) [
  | inl e ↦ inr ((==_iff key at).0 e)
  | inr e ↦ inl (ground (arith, contains_key-insert key at v m))
]

insert_or_reuse-Moves :
    (peer ch : ℕ) (o : Option ℕ) (r : GrpcRouter)
    → lookup peer r.channels ≡ o
    → IsPeer peer r
    → Moves peer r (connected ch) (insert_or_reuse peer ch o r)
insert_or_reuse-Moves peer ch (some existing) r h known =
    still-Moves peer r (connected ch) (returned existing) (λ x. x) tt
insert_or_reuse-Moves peer ch none r h known = (
  refl,
  (λ p c. elim (split_key peer p ch r.channels c) [ inl old ↦ inl old | inr e ↦ inr (e, tt) ]),
  (λ p c. ground (arith, contains_key-insert peer p ch r.channels)),
  (λ p c. c),
  (λ p c. inl c),
  (λ x. elim x [ ]),
  (known, ground (arith, contains_key-insert peer peer ch r.channels)),
  λ (sorted, counted). (insert-Above 0 peer ch r.channels (omega arith) sorted, counted),
)

look_up-Knows :
    (peer : ℕ) (o : Option ℕ) (a : Option SocketAddr) (r : GrpcRouter)
    → lookup peer r.peers ≡ a
    → Knows r peer (look_up o a)
look_up-Knows peer (some ch) a r h = tt
look_up-Knows peer none none r h = tt
look_up-Knows peer none (some addr) r h = contains_key-found peer addr r.peers h

await_connect-Knows :
    (peer : ℕ) (o : Option ℕ) (r : GrpcRouter) → IsPeer peer r → Knows r peer (await_connect o)
await_connect-Knows peer none r h = tt
await_connect-Knows peer (some ch) r h = h

pub channel_for-Moves :
    (outcome : Option ℕ) (peer : ℕ) (stage : Stage) (r : GrpcRouter)
    → Knows r peer stage
    → Moves peer r stage (channel_for outcome peer stage r)
unfolding channel_for record_peer
channel_for-Moves outcome peer starts r h =
    still-Moves peer r starts _ (λ x. x)
      (look_up-Knows peer (lookup peer r.channels) (lookup peer r.peers) r refl)
channel_for-Moves outcome peer (connects addr) r h =
    still-Moves peer r (connects addr) _ (λ x. x) (await_connect-Knows peer outcome r h)
channel_for-Moves outcome peer (connected ch) r h =
    insert_or_reuse-Moves peer ch (lookup peer r.channels) r refl h
channel_for-Moves outcome peer (records ch) r (known, cached) = (
  refl,
  (λ p c. inl c),
  (λ p c. c),
  (λ p c. ground (arith, contains_key-insert peer p tt r.metrics.peers)),
  (λ p c. elim (split_key peer p tt r.metrics.peers c) [ inl old ↦ inl old | inr e ↦ inr (e, tt) ]),
  (λ x. ground (arith, contains_key-insert peer peer tt r.metrics.peers)),
  tt,
  λ (sorted, counted). (sorted, insert-Above 0 peer tt r.metrics.peers (omega arith) counted),
)
channel_for-Moves outcome peer (returned ch) r h =
    still-Moves peer r (returned ch) (returned ch) (λ x. x) tt
channel_for-Moves outcome peer failed r h = still-Moves peer r failed failed (λ x. x) tt
