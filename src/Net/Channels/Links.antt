-- ===== src/Net/Channels/Links.antt =====
-- The links that the metrics count are the channels of the cache, at most one to each peer.
use bf_multiraft.Base.{
  ℕ, ◌≡◌, ◌≤◌, subst, true, Option, List, [], ◌∷◌, All, arith, inl, inr, length,
}
use bf_multiraft.OrdMap.{OrdMap, contains_key}
use bf_multiraft.OrdMap.Order.{Above, insert-Above}
use bf_multiraft.OrdMap.Keys.{length-keys}
use bf_multiraft.Core.{SocketAddr}
use bf_multiraft.Net.Channels.{
  Stage, starts, connects, connected, records, returned, failed, Task, run, begun, collect_peers,
  new, unique_peer_links,
}
use bf_multiraft.Net.Channels.Moves.{AtRecords}
use bf_multiraft.Net.Channels.Linked.{AnyRecords, run-Linked, new-Linked}

collect_peers-Above :
    (peers : List (ℕ × SocketAddr)) (found : OrdMap SocketAddr)
    → Above 0 found
    → Above 0 (collect_peers peers found)
unfolding collect_peers
collect_peers-Above [] found h = h
collect_peers-Above ((id, addr) ∷ peers) found h =
    collect_peers-Above peers _ (insert-Above 0 id addr found (omega arith) h)

-- The task has returned, with a channel or without.
abbrev pub IsDone : Stage → Type 0
IsDone starts = ⊥
IsDone (connects addr) = ⊥
IsDone (connected ch) = ⊥
IsDone (records ch) = ⊥
IsDone (returned ch) = Unit
IsDone failed = Unit

none-recording : (p : ℕ) (ts : List Task) → All (λ t. IsDone t.stage) ts → AnyRecords p ts → ⊥
none-recording p [] h x = x
none-recording p (t ∷ ts) (h, hs) (inr later) = none-recording p ts hs later
none-recording p (t ∷ ts) (h, hs) (inl (e, at)) = busy t.stage h at
  where
    busy : (stage : Stage) → IsDone stage → AtRecords stage → ⊥
    busy starts d x = x
    busy (connects a) d x = x
    busy (connected ch) d x = x
    busy (records ch) d x = d
    busy (returned ch) d x = x
    busy failed d x = x

-- Whatever tasks ask a new gRPC router for channels, for whichever groups, and however their steps
-- interleave: each link that is counted is a channel of the cache to a configured peer, so that
-- there are at most as many links as peers; and once all tasks have returned, each channel of the
-- cache is counted.
pub run-Links :
    (peers : List (ℕ × SocketAddr)) (self_id : ℕ) (ps : List ℕ) (schedule : List (ℕ × Option ℕ))
    → let (r, ts) = run schedule (begun ps) (new peers self_id) in
      ((p : ℕ)
        → contains_key p r.metrics.peers ≡ true
        → (contains_key p r.channels ≡ true) × (contains_key p (collect_peers peers []) ≡ true))
      × (unique_peer_links r ≤ length (collect_peers peers []))
      × (All (λ t. IsDone t.stage) ts → unique_peer_links r ≡ length r.channels)
unfolding unique_peer_links
run-Links peers self_id ps schedule =
    let s = run schedule (begun ps) (new peers self_id) in
    let (same, know, (sorted, counted), cached, known, linked) =
      run-Linked (collect_peers peers []) schedule (begun ps) (new peers self_id)
        (new-Linked peers self_id ps) in
    let peer = λ (p : ℕ) (c : contains_key p s.0.channels ≡ true).
      subst (λ m. contains_key p m ≡ true) same (known p c) in
    let all = collect_peers-Above peers [] tt in
    let le = length-keys 0 s.0.metrics.peers s.0.channels counted sorted cached in
    (
      (λ p c. (cached p c, peer p (cached p c))),
      omega (arith, le, length-keys 0 s.0.channels (collect_peers peers []) sorted all peer),
      (λ done.
          let ge = length-keys 0 s.0.channels s.0.metrics.peers sorted counted (λ p c.
            elim (linked p c) [
              | inl there ↦ there
              | inr any ↦ elim (none-recording p s.1 done any) [ ]
            ]) in
          omega (arith, le, ge)),
    )
