-- ===== src/Net/Channels/Linked.antt =====
-- However tasks interleave, the metrics follow the cache, and the cache the configured peers.
use bf_multiraft.Base.{
  ℕ, zero, suc, ◌≡◌, refl, sym, subst, ◌∙◌, true, ◌⊎◌, Option, List, [], ◌∷◌, All, inl, inr,
}
use bf_multiraft.OrdMap.{OrdMap, contains_key}
use bf_multiraft.Core.{SocketAddr}
use bf_multiraft.Net.Channels.{
  GrpcRouter, Stage, starts, connects, connected, records, returned, failed, Task, channel_for,
  System, and_task, step, run, begun, collect_peers, new,
}
use bf_multiraft.Net.Channels.Moves.{
  IsCached, IsRecorded, IsPeer, AtRecords, Knows, Sorted, Moves, channel_for-Moves,
}

-- Some task is about to record the peer.
abbrev pub AnyRecords : ℕ → List Task → Type 0
AnyRecords p [] = ⊥
AnyRecords p (t ∷ ts) = ((t.peer ≡ p) × AtRecords t.stage) ⊎ AnyRecords p ts

abbrev pub AllKnow : GrpcRouter → List Task → Type 0
AllKnow r = All (λ t. Knows r t.peer t.stage)

-- What a step of one of the tasks does.
abbrev Steps : GrpcRouter → List Task → System → Type 0
Steps r ts (r', ts') =
    (r'.peers ≡ r.peers)
    × ((p : ℕ) → IsCached p r' → IsCached p r ⊎ AnyRecords p ts')
    × ((p : ℕ) → IsCached p r → IsCached p r')
    × ((p : ℕ) → IsRecorded p r → IsRecorded p r')
    × ((p : ℕ) → IsRecorded p r' → IsRecorded p r ⊎ AnyRecords p ts)
    × ((p : ℕ) → AnyRecords p ts → IsRecorded p r' ⊎ AnyRecords p ts')
    × AllKnow r' ts'
    × (Sorted r → Sorted r')

Knows-kept :
    (r r' : GrpcRouter) (peer : ℕ) (stage : Stage)
    → r'.peers ≡ r.peers
    → ((p : ℕ) → IsCached p r → IsCached p r')
    → Knows r peer stage
    → Knows r' peer stage
Knows-kept r r' peer starts e kept h = tt
Knows-kept r r' peer (connects a) e kept h = subst (λ m. contains_key peer m ≡ true) (sym e) h
Knows-kept r r' peer (connected ch) e kept h = subst (λ m. contains_key peer m ≡ true) (sym e) h
Knows-kept r r' peer (records ch) e kept (h, c) =
    (subst (λ m. contains_key peer m ≡ true) (sym e) h, kept peer c)
Knows-kept r r' peer (returned ch) e kept h = tt
Knows-kept r r' peer failed e kept h = tt

AllKnow-kept :
    (r r' : GrpcRouter) (ts : List Task)
    → r'.peers ≡ r.peers
    → ((p : ℕ) → IsCached p r → IsCached p r')
    → AllKnow r ts
    → AllKnow r' ts
AllKnow-kept r r' [] e kept h = tt
AllKnow-kept r r' (t ∷ ts) e kept (h, hs) =
    (Knows-kept r r' t.peer t.stage e kept h, AllKnow-kept r r' ts e kept hs)

first-Steps :
    (t : Task) (ts : List Task) (r r' : GrpcRouter) (stage : Stage)
    → AllKnow r ts
    → Moves t.peer r t.stage (r', stage)
    → Steps r (t ∷ ts) (r', record { peer = t.peer; stage = stage } ∷ ts)
first-Steps t ts r r' stage know (e, fresh, kept, counted, count, records_it, knows, sorted) = (
  e,
  (λ p c. elim (fresh p c) [ inl old ↦ inl old | inr at ↦ inr (inl at) ]),
  kept,
  counted,
  (λ p c. elim (count p c) [ inl old ↦ inl old | inr at ↦ inr (inl at) ]),
  (λ p any. elim any [
    | inl (same, at) ↦ inl (subst (λ q. IsRecorded q r') same (records_it at))
    | inr later ↦ inr (inr later)
  ]),
  (knows, AllKnow-kept r r' ts e kept know),
  sorted,
)

behind-Steps :
    (t : Task) (ts : List Task) (r : GrpcRouter) (s : System)
    → Knows r t.peer t.stage
    → Steps r ts s
    → Steps r (t ∷ ts) (and_task t s)
behind-Steps t ts r (r', ts') know (e, fresh, kept, counted, count, moved, knows, sorted) = (
  e,
  (λ p c. elim (fresh p c) [ inl old ↦ inl old | inr any ↦ inr (inr any) ]),
  kept,
  counted,
  (λ p c. elim (count p c) [ inl old ↦ inl old | inr any ↦ inr (inr any) ]),
  (λ p any. elim any [
    | inl at ↦ inr (inl at)
    | inr later ↦ elim (moved p later) [ inl old ↦ inl old | inr any' ↦ inr (inr any') ]
  ]),
  (Knows-kept r r' t.peer t.stage e kept know, knows),
  sorted,
)

step-Steps :
    (n : ℕ) (outcome : Option ℕ) (ts : List Task) (r : GrpcRouter)
    → AllKnow r ts
    → Steps r ts (step n outcome ts r)
unfolding step
step-Steps n outcome [] r h =
    (refl, (λ p c. inl c), (λ p c. c), (λ p c. c), (λ p c. inl c), (λ p x. inr x), tt, λ s. s)
step-Steps zero outcome (t ∷ ts) r (h, hs) =
    let moved = channel_for outcome t.peer t.stage r in
    first-Steps t ts r moved.0 moved.1 hs (channel_for-Moves outcome t.peer t.stage r h)
step-Steps (suc n) outcome (t ∷ ts) r (h, hs) =
    behind-Steps t ts r (step n outcome ts r) h (step-Steps n outcome ts r hs)

-- A recorded peer has a channel in the cache, a cached one is configured, and it is recorded or
-- about to be.
abbrev pub Linked : OrdMap SocketAddr → System → Type 0
Linked peers (r, ts) =
    (r.peers ≡ peers)
    × AllKnow r ts
    × Sorted r
    × ((p : ℕ) → IsRecorded p r → IsCached p r)
    × ((p : ℕ) → IsCached p r → IsPeer p r)
    × ((p : ℕ) → IsCached p r → IsRecorded p r ⊎ AnyRecords p ts)

recording :
    (r : GrpcRouter) (p : ℕ) (ts : List Task)
    → AllKnow r ts
    → AnyRecords p ts
    → IsPeer p r × IsCached p r
recording r p [] h x = elim x [ ]
recording r p (t ∷ ts) (h, hs) (inr later) = recording r p ts hs later
recording r p (t ∷ ts) (h, hs) (inl (e, at)) =
    subst (λ q. IsPeer q r × IsCached q r) e (known t.stage h at)
  where
    known :
        (stage : Stage)
        → Knows r t.peer stage
        → AtRecords stage
        → IsPeer t.peer r × IsCached t.peer r
    known starts k x = elim x [ ]
    known (connects a) k x = elim x [ ]
    known (connected ch) k x = elim x [ ]
    known (records ch) k x = k
    known (returned ch) k x = elim x [ ]
    known failed k x = elim x [ ]

stepped-Linked :
    (peers : OrdMap SocketAddr) (r : GrpcRouter) (ts : List Task) (s : System)
    → Linked peers (r, ts)
    → Steps r ts s
    → Linked peers s
stepped-Linked peers r ts (r', ts') (same, know, sort, cached, known, linked)
      (e, fresh, kept, counted, count, moved, knows, sorted) =
    (
      e ∙ same,
      knows,
      sorted sort,
      (λ p c. elim (count p c) [
        | inl old ↦ kept p (cached p old)
        | inr any ↦ kept p (recording r p ts know any).1
      ]),
      (λ p c. elim (fresh p c) [
        | inl old ↦ subst (λ m. contains_key p m ≡ true) (sym e) (known p old)
        | inr any ↦ (recording r' p ts' knows any).0
      ]),
      (λ p c. elim (fresh p c) [
        | inl old ↦ elim (linked p old) [
          | inl there ↦ inl (counted p there)
          | inr any ↦ moved p any
        ]
        | inr any ↦ inr any
      ]),
    )

pub run-Linked :
    (peers : OrdMap SocketAddr) (schedule : List (ℕ × Option ℕ)) (ts : List Task) (r : GrpcRouter)
    → Linked peers (r, ts)
    → Linked peers (run schedule ts r)
unfolding run
run-Linked peers [] ts r h = h
run-Linked peers ((n, outcome) ∷ schedule) ts r h =
    let s = step n outcome ts r in
    run-Linked peers schedule s.1 s.0
      (stepped-Linked peers r ts s h (step-Steps n outcome ts r h.1))

begun-AllKnow : (r : GrpcRouter) (ps : List ℕ) → AllKnow r (begun ps)
unfolding begun
begun-AllKnow r [] = tt
begun-AllKnow r (p ∷ ps) = (tt, begun-AllKnow r ps)

pub new-Linked :
    (peers : List (ℕ × SocketAddr)) (self_id : ℕ) (ps : List ℕ)
    → Linked (collect_peers peers []) (new peers self_id, begun ps)
unfolding new contains_key
new-Linked peers self_id ps =
    (refl, begun-AllKnow (new peers self_id) ps, (tt, tt), (λ p h. cc), (λ p h. cc), (λ p h. cc))
