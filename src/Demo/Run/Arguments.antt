-- ===== src/Demo/Run/Arguments.antt =====
-- The arguments that `run_node` rejects, and the id of the node that it configures.
use bf_multiraft.Base.{
  ℕ, ◌<◌, ◌≡◌, refl, ◌⊎◌, Bool, true, false, inl, inr, Option, none, some, arith, if◌then◌else◌,
  when_some, unless_some, of_some,
}
use bf_multiraft.Core.{ClusterConfig, NodeRole}
use bf_multiraft.Facade.{is_standby}
use bf_multiraft.Demo.{Args, node_config, with_node_id, validate_counts}
use bf_multiraft.Demo.Ports.{validate_counts-Counts}

-- The id is missing, is 0, or is that of a voter above the number of nodes.
abbrev BadId : NodeRole → ℕ → Option ℕ → Type 0
BadId role nodes none = Unit
BadId role nodes (some id) = (id ≡ 0) ⊎ ((is_standby role ≡ false) × (nodes < id))

abbrev pub Invalid : Args → Type 0
Invalid args = (args.nodes ≡ 0) ⊎ ((args.groups ≡ 0) ⊎ BadId args.role args.nodes args.node_id)

bad_id :
    (standby_env : Bool) (args : Args) (id : Option ℕ)
    → with_node_id standby_env args id ≡ none
    → BadId args.role args.nodes id
bad_id standby_env args none h = tt
bad_id standby_env args (some id) h = ground arith

counted_id :
    (standby_env : Bool) (args : Args) (valid : Bool)
    → validate_counts args ≡ valid
    → (if valid then with_node_id standby_env args args.node_id else none) ≡ none
    → Invalid args
counted_id standby_env args true e h = inr (inr (bad_id standby_env args args.node_id h))
counted_id standby_env args false e h = elim ((validate_counts-Counts args).1 e) [
  | inl none_asked ↦ inl none_asked
  | inr none_asked ↦ inr (inl none_asked)
]

pub node_config-Invalid :
    (standby_env : Bool) (args : Args) → node_config standby_env args ≡ none → Invalid args
unfolding node_config
node_config-Invalid standby_env args h = counted_id standby_env args (validate_counts args) refl h

same_id :
    (standby_env : Bool) (args : Args) (c : ClusterConfig) (id : Option ℕ)
    → with_node_id standby_env args id ≡ some c
    → id ≡ some c.node_id
same_id standby_env args c none h = cc
same_id standby_env args c (some id) h =
    let (low, h') = unless_some _ _ c h in
    let (high, h'') = unless_some _ _ c h' in of_some (λ x. some id ≡ some x.node_id) h'' refl

pub node_id-node_config :
    (standby_env : Bool) (args : Args) (c : ClusterConfig)
    → node_config standby_env args ≡ some c
    → args.node_id ≡ some c.node_id
unfolding node_config
node_id-node_config standby_env args c h =
    let (valid, h') = when_some _ _ c h in same_id standby_env args c args.node_id h'
