-- ===== src/Demo/Ports.antt =====
-- The addresses of the demo's nodes do not collide, and a node finds its own among its peers.
use bf_multiraft.Base.{
  ℕ, zero, suc, ◌+◌, ◌≡◌, ◌≢◌, ◌≤◌, ◌<◌, refl, Bool, true, false, Option, none, some, List, map,
  arith, subst, sym, contains, inl, inr, ◌⊎◌, unless_some, when_some, of_some, if◌then◌else◌, ltb,
  not, ◌&&◌,
}
use bf_multiraft.Core.{ClusterConfig, NodeRole, voter, standby}
use bf_multiraft.Facade.Requests.{peer_addr}
use bf_multiraft.Facade.{NetBackend, is_empty, is_standby, refused}
use bf_multiraft.Demo.{
  Args, peer_port, peer, range, voters, peer_addrs, at_localhost, admin_addr_for_node, node_config,
  with_node_id, validate_counts, config, max,
}

own-range :
    (base id first count : ℕ)
    → first ≤ id
    → id < first + count
    → peer_addr id (map (peer base) (range first count)) ≡ some (at_localhost (peer_port base id))
unfolding peer_addr
own-range base id first zero le lt = absurd (omega arith)
own-range base id first (suc count) le lt = ground (arith, own-range base id (suc first) count)

peer_addr-peer_addrs :
    (base id nodes : ℕ)
    → 1 ≤ id
    → id ≤ nodes
    → peer_addr id (peer_addrs base nodes) ≡ some (at_localhost (peer_port base id))
unfolding peer_addrs
peer_addr-peer_addrs base id nodes le ge = own-range base id 1 nodes le (omega arith)

pub contains-range :
    (id first count : ℕ) → first ≤ id → id < first + count → contains (range first count) id ≡ true
unfolding contains
contains-range id first zero le lt = absurd (omega arith)
contains-range id first (suc count) le lt = ground (arith, contains-range id (suc first) count)

pub validate_counts-Counts :
    (args : Args)
    → (validate_counts args ≡ true → 1 ≤ args.nodes)
      × (validate_counts args ≡ false → (args.nodes ≡ 0) ⊎ (args.groups ≡ 0))
unfolding validate_counts
validate_counts-Counts args = ((λ h. ground arith), λ h. ground arith)

-- What `run_node` has checked once it accepts its arguments.
abbrev Accepted : Bool → Args → ClusterConfig → Type 0
Accepted standby_env args c =
    (1 ≤ args.nodes)
    × ((id : ℕ) × (1 ≤ id)
        × ((is_standby args.role ≡ true) ⊎ (id ≤ args.nodes))
        × (c ≡ config standby_env id args))

checked-role :
    (role : NodeRole) (nodes id : ℕ)
    → (not (is_standby role) && ltb nodes id) ≡ false
    → (is_standby role ≡ true) ⊎ (id ≤ nodes)
checked-role standby nodes id h = inl refl
checked-role voter nodes id h = inr (ground arith)

with_id-Accepted :
    (standby_env : Bool) (args : Args) (c : ClusterConfig) (id : Option ℕ)
    → (1 ≤ args.nodes)
    → with_node_id standby_env args id ≡ some c
    → Accepted standby_env args c
with_id-Accepted standby_env args c none le h = cc
with_id-Accepted standby_env args c (some id) le h =
    let (low, h') = unless_some _ _ c h in
    let (high, h'') = unless_some _ _ c h' in
    (
      le,
      (
        id,
        ground arith,
        checked-role args.role args.nodes id high,
        of_some (λ x. x ≡ config standby_env id args) h'' refl,
      ),
    )

node_config-Accepted :
    (standby_env : Bool) (args : Args) (c : ClusterConfig)
    → node_config standby_env args ≡ some c
    → Accepted standby_env args c
unfolding node_config validate_counts
node_config-Accepted standby_env args c h =
    let (valid, h') = when_some _ _ c h in
    with_id-Accepted standby_env args c args.node_id (ground arith) h'

le-max : (a b : ℕ) → (a ≤ max a b) × (b ≤ max a b)
le-max a b = (ground arith, ground arith)

members-refused :
    (role : NodeRole) (nodes id : ℕ)
    → 1 ≤ nodes
    → 1 ≤ id
    → (is_standby role ≡ true) ⊎ (id ≤ nodes)
    → (if is_empty (range 1 nodes)
        then true
        else not (is_standby role) && not (contains (range 1 nodes) id))
      ≡ false
members-refused role zero id pos low checked = absurd (omega arith)
members-refused standby (suc n) id pos low checked = refl
members-refused voter (suc n) id pos low (inl e) = cc
members-refused voter (suc n) id pos low (inr le) =
    rw (contains-range id 1 (suc n) low (omega arith)) refl

config-refused :
    (standby_env : Bool) (args : Args) (id : ℕ) (net : NetBackend) (groups : List ℕ)
    → 1 ≤ args.nodes
    → 1 ≤ id
    → (is_standby args.role ≡ true) ⊎ (id ≤ args.nodes)
    → refused
        (record { config = config standby_env id args; net = net; groups = groups })
        (voters args)
      ≡ false
unfolding refused
config-refused standby_env args id net groups pos low checked =
    members-refused args.role args.nodes id pos low checked

abbrev pub Starts : Args → ClusterConfig → Type 0
Starts args c =
    (peer_addr c.node_id c.peers ≡ some (at_localhost (peer_port args.base_port c.node_id)))
    × ((id : ℕ)
        → 1 ≤ id
        → id ≤ args.nodes
        → peer_addr id c.peers ≡ some (at_localhost (peer_port args.base_port id)))
    × ((net : NetBackend) (groups : List ℕ)
        → refused (record { config = c; net = net; groups = groups }) (voters args) ≡ false)

-- If `run_node` accepts its arguments, then `start_grpc` finds the node's own address among the
-- peers of the configuration, every voter has its address there too, and `create_group` does not
-- refuse to create a group of the voters on the node.
pub node_config-Starts :
    (standby_env : Bool) (args : Args) (c : ClusterConfig)
    → node_config standby_env args ≡ some c
    → (peer_addr c.node_id c.peers ≡ some (at_localhost (peer_port args.base_port c.node_id)))
      × ((id : ℕ)
          → 1 ≤ id
          → id ≤ args.nodes
          → peer_addr id c.peers ≡ some (at_localhost (peer_port args.base_port id)))
      × ((net : NetBackend) (groups : List ℕ)
          → refused (record { config = c; net = net; groups = groups }) (voters args) ≡ false)
node_config-Starts standby_env args c h =
    let (pos, (id, low, checked, e)) = node_config-Accepted standby_env args c h in
    let starts : Starts args (config standby_env id args) = (
      peer_addr-peer_addrs args.base_port id (max args.nodes id) low (le-max args.nodes id).1,
      λ j le ge.
          peer_addr-peer_addrs args.base_port j (max args.nodes id) le
            (omega (arith, le-max args.nodes id)),
      λ net groups. config-refused standby_env args id net groups pos low checked,
    ) in
    subst (Starts args) (sym e) starts

-- The ports of a cluster of up to 100 nodes whose ports all lie below 65536: two nodes have
-- different ports for Raft and for HTTP, and no port serves both. The numbers are ports for any
-- arguments.
pub ports-Distinct :
    (base i j : ℕ)
    → base + 199 ≤ 65535
    → (1 ≤ i) × (i ≤ 100)
    → (1 ≤ j) × (j ≤ 100)
    → (peer_port base i ≡ peer_port base j → i ≡ j)
      × ((admin_addr_for_node base i).port ≡ (admin_addr_for_node base j).port → i ≡ j)
      × (peer_port base i ≢ (admin_addr_for_node base j).port)
unfolding admin_addr_for_node
ports-Distinct base i j h (i1, i2) (j1, j2) =
    (λ e. ground arith, λ e. ground arith, λ e. ground arith)
