-- ===== src/Demo/Reads/Confirmed.antt =====
-- What the loops of linearizable reads find, told by the nodes as the loops leave them.
use bf_multiraft.Base.{
  ℕ, ◌≡◌, refl, Bool, true, false, Bool-cases, inl, inr, ◌⊎◌, Option, none, some, List, [], ◌∷◌,
  ==_refl, All,
}
use bf_multiraft.OrdMap.{lookup, lookup-insert}
use bf_multiraft.Fsm.{Result, ok, err}
use bf_multiraft.Fsm.Counter.{CounterFsm, value}
use bf_multiraft.Core.{MultiRaftError, unknown_group}
use bf_multiraft.Facade.Requests
use bf_multiraft.Facade.Requests.{RaftApi, Groups, put_group, read_now}
use bf_multiraft.Demo.Nodes.{Node, and_node}
use bf_multiraft.Demo.Reads.{read_on, or_next, read_first}

module _ (A : RaftApi CounterFsm) (group : ℕ) where
  -- A handle that openraft has just confirmed to lead, and one that it has just refused to.
  abbrev pub Confirmed : A.Group → Type 0
  Confirmed app = (before : A.Group) × (A.ensure_linearizable before ≡ (ok tt, app))

  abbrev pub Refused : A.Group → Type 0
  Refused app =
      (before : A.Group) × (e : A.ApiError) × (A.ensure_linearizable before ≡ (err e, app))

  -- The value is that of a handle whose lead is confirmed.
  abbrev pub HasConfirmed : ℕ → Option A.Group → Type 0
  HasConfirmed v none = ⊥
  HasConfirmed v (some app) = Confirmed app × (value (A.fsm app) group ≡ v)

  abbrev pub AllRefused : Option A.Group → Type 0
  AllRefused none = Unit
  AllRefused (some app) = Refused app

  abbrev pub Linearized : ℕ → List (Node A) → Type 0
  Linearized v [] = ⊥
  Linearized v (n ∷ ns) = HasConfirmed v (lookup group n.groups) ⊎ Linearized v ns

  abbrev pub NoneConfirmed : List (Node A) → Type 0
  NoneConfirmed = All (λ n. AllRefused (lookup group n.groups))

  -- What the read of one node leaves.
  abbrev ReadOne : Result MultiRaftError ℕ × Groups A → Type 0
  ReadOne (ok v, groups) = HasConfirmed v (lookup group groups)
  ReadOne (err e, groups) = AllRefused (lookup group groups)

  confirmed-ReadOne :
      (groups : Groups A) (app : A.Group) (r : Result A.ApiError (Unit {0}) × A.Group)
      → A.ensure_linearizable app ≡ r
      → ReadOne (put_group A group groups (read_now A (λ fsm. value fsm group) r))
  confirmed-ReadOne groups app (ok tt, app') e =
      rw (lookup-insert group group app' groups) (rw (==_refl group) ((app, e), refl))
  confirmed-ReadOne groups app (err x, app') e =
      rw (lookup-insert group group app' groups) (rw (==_refl group) (app, x, e))

  abbrev read_at : Groups A → Option A.Group → Result MultiRaftError ℕ × Groups A
  read_at groups none = (err (unknown_group group), groups)
  read_at groups (some app) =
      put_group A group groups (read_now A (λ fsm. value fsm group) (A.ensure_linearizable app))

  read_at-ReadOne :
      (groups : Groups A) (o : Option A.Group)
      → lookup group groups ≡ o
      → ReadOne (read_at groups o)
  read_at-ReadOne groups none e = rw e tt
  read_at-ReadOne groups (some app) e =
      confirmed-ReadOne groups app (A.ensure_linearizable app) refl

  read_on-ReadOne : (n : Node A) → ReadOne ((read_on A group n).0, (read_on A group n).1.groups)
  unfolding Requests.read_linearizable
  read_on-ReadOne n = read_at-ReadOne n.groups (lookup group n.groups) refl

  -- What a loop over the nodes leaves; one that visits all nodes finds nothing only if all refuse.
  abbrev pub ReadAll : Bool → Option ℕ × List (Node A) → Type 0
  ReadAll all (some v, ns) = Linearized v ns
  ReadAll true (none, ns) = NoneConfirmed ns
  ReadAll false (none, ns) = Unit

  or_next-ReadAll :
      (all : Bool) (r : Result MultiRaftError ℕ × Node A) (ns : List (Node A))
      (rest : Option ℕ × List (Node A))
      → ReadOne (r.0, r.1.groups)
      → ReadAll all rest
      → ReadAll all (or_next A r ns rest)
  or_next-ReadAll all (ok v, n) ns rest g h = inl g
  or_next-ReadAll all (err e, n) ns (some v, ns') g h = inr h
  or_next-ReadAll true (err e, n) ns (none, ns') g h = (g, h)
  or_next-ReadAll false (err e, n) ns (none, ns') g h = tt

  skip-ReadAll :
      (n : Node A) (rest : Option ℕ × List (Node A))
      → ReadAll false rest
      → ReadAll false (and_node A n rest)
  skip-ReadAll n (none, ns) h = tt
  skip-ReadAll n (some v, ns) h = inr h

  pub read_first-ReadAll :
      (visits : Node A → Bool) (ns : List (Node A)) → ReadAll false (read_first A visits group ns)
  unfolding read_first
  read_first-ReadAll visits [] = tt
  read_first-ReadAll visits (n ∷ ns) =
      let h = read_first-ReadAll visits ns in
      elim (Bool-cases (visits n)) [
        | inl e ↦ rw e (
            or_next-ReadAll false (read_on A group n) ns (read_first A visits group ns)
              (read_on-ReadOne n) h)
        | inr e ↦ rw e (skip-ReadAll n (read_first A visits group ns) h)
      ]

  pub read_every-ReadAll : (ns : List (Node A)) → ReadAll true (read_first A (λ n. true) group ns)
  unfolding read_first
  read_every-ReadAll [] = tt
  read_every-ReadAll (n ∷ ns) =
      or_next-ReadAll true (read_on A group n) ns (read_first A (λ n. true) group ns)
        (read_on-ReadOne n) (read_every-ReadAll ns)
