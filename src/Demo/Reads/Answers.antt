-- ===== src/Demo/Reads/Answers.antt =====
-- What a request for a group's value answers, told by the nodes as the request leaves them.
use bf_multiraft.Base.{
  ℕ, ◌≡◌, refl, Bool, true, false, Bool-cases, inl, inr, Option, none, some, List, contains,
}
use bf_multiraft.Fsm.{Result, ok, err}
use bf_multiraft.Fsm.Counter.{CounterFsm}
use bf_multiraft.Facade.Requests.{RaftApi}
use bf_multiraft.Demo.Nodes.{
  Status, not_found, conflict, service_unavailable, internal_server_error, Node, DemoState, leads,
  first_leader,
}
use bf_multiraft.Demo.Reads.{
  Consistency, linearizable, local, GroupValueResp, read_first, read_local, found, or_local, or_any,
  read_group_value_best_effort, value_answer, group_value,
}
use bf_multiraft.Demo.Reads.Confirmed.{
  Linearized, NoneConfirmed, ReadAll, read_first-ReadAll, read_every-ReadAll,
}
use bf_multiraft.Demo.Reads.Largest.{Held, Largest, AllBounded, NoneHeld, read_local-Largest}

module _ (A : RaftApi CounterFsm) (group : ℕ) where
  -- What stands behind a value of each consistency.
  abbrev pub Backs : List (Node A) → ℕ → Consistency → Type 0
  Backs ns v linearizable = Linearized A group v ns
  Backs ns v local = NoneConfirmed A group ns × Held A group v ns × AllBounded A group v ns

  abbrev Read : Result (Unit {0}) (ℕ × Consistency) × List (Node A) → Type 0
  Read (ok (v, c), ns) = Backs ns v c
  Read (err u, ns) = NoneConfirmed A group ns × NoneHeld A group ns

  found-Read :
      (ns : List (Node A)) (r : Option ℕ)
      → NoneConfirmed A group ns
      → Largest A group none ns r
      → Read (found A r, ns)
  found-Read ns none h (e, held) = (h, held)
  found-Read ns (some v) h (inl e, low, all) = cc
  found-Read ns (some v) h (inr held, low, all) = (h, held, all)

  or_local-Read :
      (r : Option ℕ × List (Node A)) → ReadAll A group true r → Read (or_local A group r)
  or_local-Read (some v, ns) h = h
  or_local-Read (none, ns) h =
      found-Read ns (read_local A group none ns) h (read_local-Largest A group none ns)

  or_any-Read : (r : Option ℕ × List (Node A)) → ReadAll A group false r → Read (or_any A group r)
  or_any-Read (some v, ns) h = h
  or_any-Read (none, ns) h =
      or_local-Read (read_first A (λ n. true) group ns) (read_every-ReadAll A group ns)

  best_effort-Read : (ns : List (Node A)) → Read (read_group_value_best_effort A group ns)
  unfolding read_group_value_best_effort
  best_effort-Read ns =
      or_any-Read (read_first A (leads A group) group ns)
        (read_first-ReadAll A group (leads A group) ns)

  abbrev is_stale : Consistency → Option Bool
  is_stale linearizable = none
  is_stale local = some true

  abbrev pub Answers : DemoState A → List (Node A) → Result Status GroupValueResp → Type 0
  Answers s ns (ok resp) =
      (resp.stale ≡ is_stale resp.consistency)
      × (resp.leader ≡ first_leader A group s.nodes)
      × Backs ns resp.value resp.consistency
  Answers s ns (err not_found) = contains s.group_ids group ≡ false
  Answers s ns (err service_unavailable) = NoneConfirmed A group ns × NoneHeld A group ns
  Answers s ns (err conflict) = ⊥
  Answers s ns (err internal_server_error) = ⊥

  value_answer-Answers :
      (s : DemoState A) (r : Result (Unit {0}) (ℕ × Consistency) × List (Node A))
      → Read r
      → Answers s r.1 (value_answer A group (first_leader A group s.nodes) r.0)
  value_answer-Answers s (ok (v, linearizable), ns) h = (refl, refl, h)
  value_answer-Answers s (ok (v, local), ns) h = (refl, refl, h)
  value_answer-Answers s (err u, ns) h = h

  -- A value that is answered as linearizable is that of a handle of the group that openraft has
  -- just confirmed to lead. One that is answered as local is marked as stale; then openraft has
  -- refused every handle of the group, and the value is the largest that the nodes hold. If no
  -- value is answered for a group that the server has, then no node holds one.
  pub group_value-Answers :
      (s : DemoState A) → Answers s (group_value A group s).1.nodes (group_value A group s).0
  unfolding group_value
  group_value-Answers s = elim (Bool-cases (contains s.group_ids group)) [
    | inr e ↦ rw e e
    | inl e ↦ rw e (
        value_answer-Answers s (read_group_value_best_effort A group s.nodes)
          (best_effort-Read s.nodes))
  ]
