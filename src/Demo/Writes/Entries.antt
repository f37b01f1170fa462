-- ===== src/Demo/Writes/Entries.antt =====
-- How many entries a write request appends to the log of its group: one if it is accepted, at most
-- one if a node fails, and none if no node leads.
use bf_multiraft.Base.{
  ℕ, suc, ◌+◌, ◌≡◌, ◌≤◌, refl, subst, Bool, true, Bool-cases, inl, inr, Option, none, some, List,
  [], ◌∷◌, Bytes, contains, ==_refl, arith,
}
use bf_multiraft.OrdMap.{lookup, lookup-insert}
use bf_multiraft.Fsm.{Result, ok, err}
use bf_multiraft.Fsm.Counter.{CounterFsm, Serde, encode_add}
use bf_multiraft.Core.{
  MultiRaftError, not_leader, unknown_group, other, ProposeOk, standby_snapshot_trigger,
}
use bf_multiraft.Facade.Requests
use bf_multiraft.Facade.Requests.{RaftApi, Groups, put_group, map_err}
use bf_multiraft.Demo.Nodes.{
  Status, not_found, conflict, service_unavailable, internal_server_error, Pass, answered, fails,
  no_answer, Node, DemoState, leads, propose_on, try_nodes, after, and_node,
}
use bf_multiraft.Demo.Writes.{
  IncReq, IncOkResp, group_inc, admin_standby_snapshot, propose_any, last_answer, or_any_node,
  idem_or_next,
}

-- How a count of entries has changed, by the result of a write.
abbrev pub Grows : {B : Type 0} → ℕ → ℕ → Result MultiRaftError B → Type 0
Grows before left (ok b) = left ≡ suc before
Grows before left (err (not_leader leader)) = left ≡ before
Grows before left (err (unknown_group g)) = (before ≤ left) × (left ≤ suc before)
Grows before left (err other) = (before ≤ left) × (left ≤ suc before)

-- What a handle of openraft counts: a write that is accepted appends one entry to the log of the
-- leader, one that is forwarded none, and one that fails otherwise may have appended one.
pub record Appending (A : RaftApi CounterFsm) : Type 0 where
  pub entries : A.Group → ℕ
  pub grows :
      (bytes : Bytes) (app : A.Group)
      → Grows
          (entries app)
          (entries (A.client_write bytes app).1)
          (map_err A (A.client_write bytes app).0)

module _ (A : RaftApi CounterFsm) (L : Appending A) (serde : Serde) where
  abbrev entries_at : Option A.Group → ℕ
  entries_at none = 0
  entries_at (some app) = L.entries app

  -- The entries of a group, on one node and on all nodes of the process.
  abbrev pub node_entries : ℕ → Node A → ℕ
  node_entries group n = entries_at (lookup group n.groups)

  abbrev pub total_entries : ℕ → List (Node A) → ℕ
  total_entries group [] = 0
  total_entries group (n ∷ ns) = node_entries group n + total_entries group ns

  abbrev PassGrows : {B : Type 0} → ℕ → ℕ → Pass B → Type 0
  PassGrows before left (answered b) = left ≡ suc before
  PassGrows before left fails = (before ≤ left) × (left ≤ suc before)
  PassGrows before left no_answer = left ≡ before

  abbrev pub write_at :
      ℕ → Bytes → Groups A → Option A.Group → Result MultiRaftError ProposeOk × Groups A
  write_at group bytes groups none = (err (unknown_group group), groups)
  write_at group bytes groups (some app) =
      put_group A group groups
        (map_err A (A.client_write bytes app).0, (A.client_write bytes app).1)

  write_at-Grows :
      (group : ℕ) (bytes : Bytes) (groups : Groups A) (o : Option A.Group)
      → lookup group groups ≡ o
      → Grows
          (entries_at o)
          (entries_at (lookup group (write_at group bytes groups o).1))
          (write_at group bytes groups o).0
  write_at-Grows group bytes groups none e = rw e (omega arith, omega arith)
  write_at-Grows group bytes groups (some app) e =
      rw (lookup-insert group group (A.client_write bytes app).1 groups)
        (rw (==_refl group) (L.grows bytes app))

  pub propose_on-Grows :
      (group : ℕ) (bytes : Bytes) (n : Node A)
      → Grows
          (node_entries group n)
          (node_entries group (propose_on A group bytes n).1)
          (propose_on A group bytes n).0
  unfolding Requests.propose
  propose_on-Grows group bytes n = write_at-Grows group bytes n.groups (lookup group n.groups) refl

  skip-PassGrows :
      {B : Type 0} (group : ℕ) (n : Node A) (ns : List (Node A)) (rest : Pass B × List (Node A))
      → PassGrows (total_entries group ns) (total_entries group rest.1) rest.0
      → PassGrows
          (total_entries group (n ∷ ns))
          (total_entries group (and_node A n rest).1)
          (and_node A n rest).0
  skip-PassGrows group n ns (answered b, ns') h = omega (arith, h)
  skip-PassGrows group n ns (fails, ns') h = (omega (arith, h), omega (arith, h))
  skip-PassGrows group n ns (no_answer, ns') h = omega (arith, h)

  after-PassGrows :
      {B : Type 0} (group : ℕ) (n : Node A) (ns : List (Node A))
      (r : Result MultiRaftError B × Node A) (rest : Pass B × List (Node A))
      → Grows (node_entries group n) (node_entries group r.1) r.0
      → PassGrows (total_entries group ns) (total_entries group rest.1) rest.0
      → PassGrows
          (total_entries group (n ∷ ns))
          (total_entries group (after A r ns rest).1)
          (after A r ns rest).0
  after-PassGrows group n ns (ok b, n') rest g h = omega (arith, g)
  after-PassGrows group n ns (err (unknown_group k), n') rest g h =
      (omega (arith, g), omega (arith, g))
  after-PassGrows group n ns (err other, n') rest g h = (omega (arith, g), omega (arith, g))
  after-PassGrows group n ns (err (not_leader l), n') (answered b, ns') g h = omega arith
  after-PassGrows group n ns (err (not_leader l), n') (fails, ns') g h =
      (omega (arith, h), omega (arith, h))
  after-PassGrows group n ns (err (not_leader l), n') (no_answer, ns') g h = omega arith

  try_nodes-PassGrows :
      {B : Type 0} (group : ℕ) (visits : Node A → Bool)
      (call : Node A → Result MultiRaftError B × Node A)
      → ((n : Node A) → Grows (node_entries group n) (node_entries group (call n).1) (call n).0)
      → (ns : List (Node A))
      → PassGrows
          (total_entries group ns)
          (total_entries group (try_nodes A visits call ns).1)
          (try_nodes A visits call ns).0
  unfolding try_nodes
  try_nodes-PassGrows group visits call grows [] = refl
  try_nodes-PassGrows group visits call grows (n ∷ ns) =
      let h = try_nodes-PassGrows group visits call grows ns in
      elim (Bool-cases (visits n)) [
        | inl e ↦
            rw e (after-PassGrows group n ns (call n) (try_nodes A visits call ns) (grows n) h)
        | inr e ↦ rw e (skip-PassGrows group n ns (try_nodes A visits call ns) h)
      ]

  or_any-PassGrows :
      (group : ℕ) (bytes : Bytes) (before : ℕ) (r : Pass ProposeOk × List (Node A))
      → PassGrows before (total_entries group r.1) r.0
      → PassGrows before
          (total_entries group (or_any_node A serde group bytes r).1)
          (or_any_node A serde group bytes r).0
  or_any-PassGrows group bytes before (answered done, ns) h = h
  or_any-PassGrows group bytes before (fails, ns) h = h
  or_any-PassGrows group bytes before (no_answer, ns) h =
      let r = try_nodes A (λ n. true) (propose_on A group bytes) ns in
      subst (λ b. PassGrows b (total_entries group r.1) r.0) h
        (try_nodes-PassGrows group (λ n. true) (propose_on A group bytes)
          (propose_on-Grows group bytes) ns)

  propose_any-PassGrows :
      (group : ℕ) (bytes : Bytes) (ns : List (Node A))
      → PassGrows
          (total_entries group ns)
          (total_entries group (propose_any A serde group bytes ns).1)
          (propose_any A serde group bytes ns).0
  unfolding propose_any
  propose_any-PassGrows group bytes ns =
      or_any-PassGrows group bytes (total_entries group ns)
        (try_nodes A (leads A group) (propose_on A group bytes) ns)
        (try_nodes-PassGrows group (leads A group) (propose_on A group bytes)
          (propose_on-Grows group bytes) ns)

  -- How a count of entries has changed, by the answer to a request.
  abbrev pub Appends : ℕ → ℕ → Result Status IncOkResp → Type 0
  Appends before left (ok resp) = left ≡ suc before
  Appends before left (err conflict) = (before ≤ left) × (left ≤ suc before)
  Appends before left (err not_found) = left ≡ before
  Appends before left (err service_unavailable) = left ≡ before
  Appends before left (err internal_server_error) = ⊥

  last_answer-Appends :
      (group before : ℕ) (r : Pass ProposeOk × List (Node A))
      → PassGrows before (total_entries group r.1) r.0
      → Appends before
          (total_entries group (last_answer A serde group r).1)
          (last_answer A serde group r).0
  last_answer-Appends group before (answered done, ns) h = h
  last_answer-Appends group before (fails, ns) h = h
  last_answer-Appends group before (no_answer, ns) h = h

  -- A request for an increment that is answered with 200 has appended one entry to the log of its
  -- group, over all nodes of the process; one that is answered with a conflict has appended one at
  -- most, and one that finds no group or no leader has appended none.
  pub group_inc-Appends :
      (id : ℕ) (body : IncReq) (s : DemoState A)
      → Appends
          (total_entries id s.nodes)
          (total_entries id (group_inc A serde id body s).1.nodes)
          (group_inc A serde id body s).0
  unfolding group_inc
  group_inc-Appends id body s = elim (Bool-cases (contains s.group_ids id)) [
    | inr e ↦ rw e refl
    | inl e ↦ rw e (
        last_answer-Appends id (total_entries id s.nodes)
          (propose_any A serde id (encode_add serde body.delta (idem_or_next body.idem s.keys).0)
            s.nodes)
          (propose_any-PassGrows id (encode_add serde body.delta (idem_or_next body.idem s.keys).0)
            s.nodes))
  ]

  -- The same for a request for a snapshot on the standby, which writes a trigger to the log.
  pub admin_standby_snapshot-Appends :
      (id : ℕ) (s : DemoState A)
      → Appends
          (total_entries id s.nodes)
          (total_entries id (admin_standby_snapshot A serde id s).1.nodes)
          (admin_standby_snapshot A serde id s).0
  unfolding admin_standby_snapshot Requests.trigger_standby_snapshot
  admin_standby_snapshot-Appends id s = elim (Bool-cases (contains s.group_ids id)) [
    | inr e ↦ rw e refl
    | inl e ↦ rw e (
        last_answer-Appends id (total_entries id s.nodes)
          (try_nodes A (leads A id) (propose_on A id standby_snapshot_trigger) s.nodes)
          (try_nodes-PassGrows id (leads A id) (propose_on A id standby_snapshot_trigger)
            (propose_on-Grows id standby_snapshot_trigger) s.nodes))
  ]
