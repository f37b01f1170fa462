-- ===== src/Facade/Requests/Shutdown.antt =====
-- What a shutdown leaves: nothing if it succeeds, and all groups if one of them fails.
use bf_multiraft.Base.{ℕ, ◌≡◌, refl, ap, false, [], ◌∷◌, arith, All}
use bf_multiraft.OrdMap.{keys}
use bf_multiraft.Fsm.{Result, ok, err}
use bf_multiraft.Core.{MultiRaftError}
use bf_multiraft.Facade.{in_process}
use bf_multiraft.Net.Router.{Router, has_node, unregister_node}
use bf_multiraft.Net.Router.Calls.{has_node-change}
use bf_multiraft.Facade.Requests.{RaftApi, Groups, and_rest, shutdown_all, shutdown, cleared}

module _ {S : Type 0} (A : RaftApi S) where
  -- The call of openraft succeeded on each group.
  abbrev pub AllStopped : Groups A → Type 0
  AllStopped = All (λ e. (A.shutdown e.1).0 ≡ ok tt)

  abbrev Outcome : Groups A → Result MultiRaftError (Unit {0}) × Groups A → Type 0
  Outcome groups (ok _, left) = AllStopped groups
  Outcome groups (err e, left) = keys left ≡ keys groups

  and_rest-Outcome :
      (g : ℕ) (app : A.Group) (groups : Groups A)
      (rest : Result MultiRaftError (Unit {0}) × Groups A)
      (r : Result A.ApiError (Unit {0}) × A.Group)
      → A.shutdown app ≡ r
      → Outcome groups rest
      → Outcome ((g, app) ∷ groups) (and_rest A g groups rest r)
  and_rest-Outcome g app groups (ok u, left) (ok v, app') q h = (ap (λ x. x.0) q, h)
  and_rest-Outcome g app groups (err e, left) (ok v, app') q h = ap (λ ks. g ∷ ks) h
  and_rest-Outcome g app groups rest (err e, app') q h = refl

  shutdown_all-Outcome : (groups : Groups A) → Outcome groups (shutdown_all A groups)
  unfolding shutdown_all
  shutdown_all-Outcome [] = tt
  shutdown_all-Outcome ((g, app) ∷ groups) =
      and_rest-Outcome g app groups (shutdown_all A groups) (A.shutdown app) refl
        (shutdown_all-Outcome groups)

  -- What holds after a shutdown of a node in process.
  abbrev pub Leaves :
      ℕ → Groups A → Router → Result MultiRaftError (Unit {0}) × Groups A × Router → Type 0
  Leaves node_id groups router (ok _, left, router') =
      AllStopped groups × (left ≡ []) × (has_node node_id router' ≡ false)
  Leaves node_id groups router (err e, left, router') =
      (keys left ≡ keys groups) × (router' ≡ router)

  gone :
      (node_id : ℕ) (router : Router) → has_node node_id (unregister_node node_id router).1 ≡ false
  gone node_id router = ground (arith, (has_node-change node_id node_id 0 router).1)

  cleared-Leaves :
      (node_id : ℕ) (groups : Groups A) (router : Router)
      (r : Result MultiRaftError (Unit {0}) × Groups A)
      → Outcome groups r
      → Leaves node_id groups router (cleared A in_process node_id router r)
  cleared-Leaves node_id groups router (ok u, left) h = (h, refl, gone node_id router)
  cleared-Leaves node_id groups router (err e, left) h = (h, refl)

  -- A shutdown of a node in process that returns `Ok` has stopped every group, and leaves the node
  -- without groups and unregistered. One that returns an error leaves every group in place and the
  -- node registered as it was.
  pub shutdown-Leaves :
      (node_id : ℕ) (groups : Groups A) (router : Router)
      → Leaves node_id groups router (shutdown A in_process node_id groups router)
  unfolding shutdown
  shutdown-Leaves node_id groups router =
      cleared-Leaves node_id groups router (shutdown_all A groups) (shutdown_all-Outcome groups)
