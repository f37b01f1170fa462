-- ===== src/Demo/Run/Single.antt =====
-- What a run of a demo node over gRPC comes to.
use bf_multiraft.Base.{
  ℕ, ◌+◌, ◌≤◌, ◌<◌, ◌≡◌, refl, ◌∙◌, ◌⊎◌, Bool, true, false, not, ◌||◌, Bool-cases, Option-cases,
  inl, inr, Option, none, some, arith, [], if◌then◌else◌,
}
use bf_multiraft.Io.{Env}
use bf_multiraft.Codec.{TotalCodec}
use bf_multiraft.Core.{ClusterConfig, SocketAddr}
use bf_multiraft.Net.Channels.{GrpcRouter}
use bf_multiraft.Facade.{MultiRaft, grpc, is_standby}
use bf_multiraft.Facade.Requests.{peer_addr}
use bf_multiraft.Facade.Runtime.{AdsFile, Ads}
use bf_multiraft.Facade.Start.{Seat, Running, fresh_node, start_grpc}
use bf_multiraft.Demo.{
  Args, key_source, voter_admins, voters, group_ids, at_localhost, peer_port, node_config,
}
use bf_multiraft.Demo.Ports.{node_config-Starts}
use bf_multiraft.Demo.Startup.{Tried, wait_local_sees_leaders}
use bf_multiraft.Demo.Startup.Deadline.{Sleeps, AllEnd, wait_local_sees_leaders-AllEnd}
use bf_multiraft.Demo.Startup.Retries.{AllLucky, AllThere, Retried, create_groups-Retried}
use bf_multiraft.Demo.Run.Nodes.{made-Reaches}
use bf_multiraft.Demo.Run.{
  Ended, rejected, not_started, create_failed, leaderless, serving, Weather, empty_glue, awaited,
  tried, started, run_node,
}
use bf_multiraft.Demo.Run.Arguments.{Invalid, node_config-Invalid, node_id-node_config}

-- How the run may end, and what holds then.
abbrev pub Ends : Weather → Args → Ended MultiRaft → Type 0
Ends w args rejected = Invalid args
Ends w args not_started =
    (w.dir_made ≡ false)
    ⊎ ((id : ℕ) × (args.node_id ≡ some id)
        × (w.binds (at_localhost (peer_port args.base_port id)) ≡ false))
Ends w args (create_failed e node) =
    (j : ℕ) → 1 ≤ j → j ≤ 20 → AllLucky (w.chance j) (group_ids args) → ⊥
Ends w args (leaderless node) =
    AllThere node (group_ids args)
    × (is_standby args.role ≡ false)
    × AllEnd (w.clock 0 + 30000) w.clock w.sees (group_ids args) (some false)
Ends w args (serving node keys proposes publishes) =
    AllThere node (group_ids args)
    × (is_standby args.role ≡ false
        → AllEnd (w.clock 0 + 30000) w.clock w.sees (group_ids args) (some true))
    × ((id : ℕ) × (args.node_id ≡ some id) × (keys ≡ key_source id))
    × (proposes ≡ not (args.no_auto_propose || is_standby args.role))
    × (publishes ≡ (if is_standby args.role then voter_admins args else []))

-- A node with an address starts exactly if its listener binds to it.
start_grpc-Binds :
    (json : TotalCodec Ads) (binds : SocketAddr → Bool) (seat : Seat) (addr : SocketAddr)
    → peer_addr seat.config.node_id seat.config.peers ≡ some addr
    → (binds addr ≡ false → start_grpc json binds seat ≡ none)
      × (binds addr ≡ true
          → (r : Running × GrpcRouter) × (start_grpc json binds seat ≡ some r)
            × (r.0.node ≡ fresh_node seat.config grpc))
unfolding start_grpc
start_grpc-Binds json binds seat addr h =
    ((λ f. rw (h, start_grpc) (rw f refl)), λ f. rw (h, start_grpc) (rw f (_, refl, refl)))

module _ (fuel : ℕ) (w : Weather) (args : Args) (c : ClusterConfig) where
  -- A result that is reached, with what holds then.
  abbrev Reaches : Option (Ended MultiRaft) → Type 0
  Reaches r = (ended : Ended MultiRaft) × (r ≡ some ended) × Ends w args ended

  -- The wait is over, and of a standby there is none.
  waited-Reaches :
      (node : MultiRaft) (role : Bool)
      → is_standby args.role ≡ role
      → Sleeps w.clock
      → 301 < fuel
      → args.node_id ≡ some c.node_id
      → AllThere node (group_ids args)
      → Reaches (
          awaited args c node (
            if role
            then some true
            else wait_local_sees_leaders fuel 0
                (w.clock 0 + 30000)
                w.clock
                w.sees
                (group_ids args)))
  waited-Reaches node true role sleeps enough id there = (
    serving node (key_source c.node_id) _ _,
    refl,
    (there, (λ e. cc), (c.node_id, id, refl), refl, refl),
  )
  waited-Reaches node false role sleeps enough id there =
      let (r, e, end) =
        wait_local_sees_leaders-AllEnd 30000 fuel w.clock w.sees (group_ids args) sleeps
          (omega arith) in
      rw e (seen r end)
    where
      seen :
          (r : Bool)
          → AllEnd (w.clock 0 + 30000) w.clock w.sees (group_ids args) (some r)
          → Reaches (awaited args c node (some r))
      seen true end = (
        serving node (key_source c.node_id) _ _,
        refl,
        (there, (λ e. end), (c.node_id, id, refl), refl, refl),
      )
      seen false end = (leaderless node, refl, (there, role, end))

  tried-Reaches :
      (t : Tried)
      → Sleeps w.clock
      → 301 < fuel
      → args.node_id ≡ some c.node_id
      → Retried w.chance (group_ids args) 19 1 t
      → Reaches (tried fuel w args c t)
  tried-Reaches (some (gid, e), node, glue) sleeps enough id h = (create_failed e node, refl, h)
  tried-Reaches (none, node, glue) sleeps enough id h =
      waited-Reaches node (is_standby args.role) refl sleeps enough id h

-- Where a round of the wait that sleeps takes 100 ms or more, `run_node` ends: any fuel above 301
-- is enough for each group. It rejects its arguments only if they ask for no nodes or no groups, or
-- the id is missing, 0, or above the number of nodes and that of a voter. It does not start only if
-- its directory cannot be made or it cannot bind to its own port. It fails to create a group only
-- if something fails in each of the 20 attempts. Otherwise the node has all groups, and it serves,
-- with keys of its own id, unless it is a voter that saw no leader of some group by its deadline; a
-- voter that serves has seen a leader of each. It proposes by itself exactly if it is a voter that
-- is not told to leave this to others, and publishes its snapshots to the voters exactly if it is a
-- standby.
pub run_node-Ends :
    (json : TotalCodec Ads) (tx : ℕ) (file : Env AdsFile) (fuel : ℕ) (w : Weather)
    (standby_env : Bool) (args : Args)
    → Sleeps w.clock
    → 301 < fuel
    → (ended : Ended MultiRaft) × (run_node json tx file fuel w standby_env args ≡ some ended)
      × Ends w args ended
unfolding run_node
run_node-Ends json tx file fuel w standby_env args sleeps enough =
    elim (Option-cases (node_config standby_env args)) [
      | inl e ↦ rw e (rejected, refl, node_config-Invalid standby_env args e)
      | inr (c, e) ↦ rw e (
          made-Reaches (Ends w args) w.dir_made _ (λ d. inl d)
            λ d. begun c e (w.binds (at_localhost (peer_port args.base_port c.node_id))) refl)
    ]
  where
    begun :
        (c : ClusterConfig)
        → node_config standby_env args ≡ some c
        → (b : Bool) → w.binds (at_localhost (peer_port args.base_port c.node_id)) ≡ b
        → Reaches fuel w args c (
            started fuel w args c
              (start_grpc json w.binds (record { config = c; tx = tx; file = file })))
    begun c e b f =
        let seat : Seat = record { config = c; tx = tx; file = file } in
        let starts = node_config-Starts standby_env args c e in
        let (closed, open_) = start_grpc-Binds json w.binds seat _ starts.0 in
        let id = node_id-node_config standby_env args c e in
        elim (Bool-cases b) [
          | inr no_port ↦
              rw (closed (f ∙ no_port)) (not_started, refl, inr (c.node_id, id, f ∙ no_port))
          | inl port ↦
              let ((running, router), g, same) = open_ (f ∙ port) in
              rw (g, same)
                (tried-Reaches fuel w args c _ sleeps enough id (
                  create_groups-Retried (voters args) w.chance (group_ids args) (fresh_node c grpc)
                    empty_glue (starts.2 grpc [])))
        ]
