-- ===== src/Demo/Run/Cluster.antt =====
-- What a run of the demo cluster comes to.
use bf_multiraft.Base.{
  ℕ, zero, suc, ◌+◌, ◌≤◌, ◌<◌, ◌≡◌, refl, ap, ◌⊎◌, sym, subst, ◌∙◌, true, false, Bool-cases, Option,
  none, some, arith, List, [], ◌∷◌, inl, inr, map, All, contains, not,
}
use bf_multiraft.Codec.{TotalCodec}
use bf_multiraft.Net.Router.{new_router}
use bf_multiraft.Facade.{MultiRaft}
use bf_multiraft.Facade.InitOnce.{Create, AllInProcess, initializations-once}
use bf_multiraft.Facade.InitOnce.Reached.{Valid, no_glue, initializations-reached}
use bf_multiraft.Facade.Leaders.{scan}
use bf_multiraft.Facade.Leaders.Wait.{Sleeps, Answers, wait_for_leader-Answers}
use bf_multiraft.Facade.Runtime.{Ads}
use bf_multiraft.Demo.{Args, key_source, range, voters, group_ids, validate_counts}
use bf_multiraft.Demo.Startup.{Chance}
use bf_multiraft.Demo.Run.{
  Process, Filled, Ended, rejected, not_started, create_failed, leaderless, serving, Shows, Machine,
  seat_for, or_leaderless, wait_each, waited, filled, run_cluster,
}
use bf_multiraft.Demo.Run.Traced.{count, IsCall, Traces}
use bf_multiraft.Demo.Run.EveryNode.{ids}
use bf_multiraft.Demo.Run.EveryGroup.{AllStart, AnyUnlucky, OnAll, create_everywhere-OnAll}
use bf_multiraft.Demo.Ports.{contains-range, validate_counts-Counts}
use bf_multiraft.Demo.Run.Nodes.{
  nodes-start_cluster, All-range, first_node-Fits, HasAll, map-HasAll, made-Reaches,
}

-- The nodes 1 to `args.nodes` run, each with all groups, and each group is initialized once.
abbrev pub Everywhere : Args → Process → Type 0
Everywhere args p =
    (ids p.nodes ≡ voters args)
    × All (HasAll (group_ids args)) p.nodes
    × All (λ g. count g p.initialized ≡ 1) (group_ids args)

-- When a wait for the group that starts with the run of its clock gives up.
abbrev deadline : Shows → ℕ → ℕ
deadline shows gid = shows.clock gid 0 + 10000

-- A round before the deadline shows a leader, or none does.
abbrev pub Led : Shows → ℕ → Type 0
Led shows gid =
    (l : ℕ) × (k : ℕ) × (shows.clock gid k < deadline shows gid)
    × (scan (shows.look gid k) ≡ some l)

abbrev pub Leaderless : Shows → ℕ → Type 0
Leaderless shows gid =
    (k : ℕ) → shows.clock gid k < deadline shows gid → scan (shows.look gid k) ≡ none

-- How the run may end, and what holds then.
abbrev pub Ends : Machine → Shows → (ℕ → ℕ → Chance) → Args → Ended Process → Type 0
Ends m shows chance args rejected = (args.nodes ≡ 0) ⊎ (args.groups ≡ 0)
Ends m shows chance args not_started = m.dir_made ≡ false
Ends m shows chance args (create_failed e p) =
    AnyUnlucky (voters args) chance (voters args) (group_ids args)
    × ((g : ℕ) → count g p.initialized ≤ 1)
Ends m shows chance args (leaderless p) =
    Everywhere args p × ((gid : ℕ) × (contains (group_ids args) gid ≡ true) × Leaderless shows gid)
Ends m shows chance args (serving p keys proposes publishes) =
    Everywhere args p
    × All (Led shows) (group_ids args)
    × (keys ≡ key_source 0)
    × (proposes ≡ not args.no_auto_propose)
    × (publishes ≡ [])

-- What the waits give.
abbrev Waits : Shows → List ℕ → Option (Option ℕ) → Type 0
Waits shows gids none = ⊥
Waits shows gids (some none) = All (Led shows) gids
Waits shows gids (some (some gid)) = (contains gids gid ≡ true) × Leaderless shows gid

or_leaderless-Waits :
    (shows : Shows) (gid : ℕ) (gids : List ℕ) (r : Option ℕ) (rest : Option (Option ℕ))
    → Answers 0 (deadline shows gid) (shows.clock gid) (shows.look gid) r
    → Waits shows gids rest
    → Waits shows (gid ∷ gids) (or_leaderless gid (some r) rest)
unfolding contains
or_leaderless-Waits shows gid gids none rest h w = (ground arith, λ k lt. h k (omega arith) lt)
or_leaderless-Waits shows gid gids (some l) none h w = elim w [ ]
or_leaderless-Waits shows gid gids (some l) (some none) (k, le, lt, e, first) w = ((l, k, lt, e), w)
or_leaderless-Waits shows gid gids (some l) (some (some g)) h (c, w) = (ground arith, w)

wait_each-Waits :
    (fuel : ℕ) (shows : Shows) (gids : List ℕ)
    → ((gid : ℕ) → Sleeps (shows.clock gid))
    → 201 < fuel
    → Waits shows gids (wait_each fuel shows gids)
unfolding wait_each
wait_each-Waits fuel shows [] sleeps enough = tt
wait_each-Waits fuel shows (gid ∷ gids) sleeps enough =
    let (r, e, answers) =
      wait_for_leader-Answers 10000 fuel (shows.clock gid) (shows.look gid) (sleeps gid)
        (omega arith) in
    rw e (
      or_leaderless-Waits shows gid gids r (wait_each fuel shows gids) answers
        (wait_each-Waits fuel shows gids sleeps enough))

calls-AllInProcess :
    (members : List ℕ) (cs : List Create) → All (IsCall members) cs → AllInProcess cs
unfolding AllInProcess
calls-AllInProcess members [] h = tt
calls-AllInProcess members (c ∷ cs) ((net, same), hs) = (net, calls-AllInProcess members cs hs)

calls-Valid :
    (g : ℕ) (members : List ℕ) (cs : List Create)
    → All (IsCall members) cs
    → All (Valid g members) cs
calls-Valid g members [] h = tt
calls-Valid g members (c ∷ cs) ((net, same), hs) = ((net, λ e. same), calls-Valid g members cs hs)

-- Each group that every voter starts is initialized once.
initializations-each :
    (nodes : ℕ) (cs : List Create) (gs : List ℕ) (p : Process)
    → 1 ≤ nodes
    → Traces (range 1 nodes) no_glue p cs
    → All (AllStart (range 1 nodes) cs (range 1 nodes)) gs
    → All (λ g. count g p.initialized ≡ 1) gs
initializations-each zero cs gs p h traces starts = ground arith
initializations-each (suc n) cs [] p h traces starts = tt
initializations-each (suc n) cs (g ∷ gs) p h (left, counts, calls) (start, starts) = (
  counts g
      ∙ initializations-reached g 1 (range 2 n) cs (calls-Valid g (range 1 (suc n)) cs calls) start,
  initializations-each (suc n) cs gs p h (left, counts, calls) starts,
)

filled-Ends :
    (m : Machine) (fuel : ℕ) (shows : Shows) (chance : ℕ → ℕ → Chance) (args : Args)
    (ns : List MultiRaft)
    → 1 ≤ args.nodes
    → ids ns ≡ voters args
    → Waits shows (group_ids args) (wait_each fuel shows (group_ids args))
    → (r : Filled) → OnAll (voters args) chance (group_ids args) ns no_glue r
    → (ended : Ended Process) × (filled fuel shows args r ≡ some ended)
      × Ends m shows chance args ended
unfolding contains
filled-Ends m fuel shows chance args ns pos same w (some e, p)
      (unlucky, (cs, (left, counts, calls))) =
    (
      create_failed e p,
      refl,
      (
        subst (λ ms. AnyUnlucky (voters args) chance ms (group_ids args)) same unlucky,
        λ g. omega (
          arith,
          counts g,
          initializations-once g cs no_glue (calls-AllInProcess (voters args) cs calls),
        ),
      ),
    )
filled-Ends m fuel shows chance args ns pos same w (none, p) (nodes, (cs, traces, starts)) =
    ended (wait_each fuel shows (group_ids args)) w
  where
    everywhere : Everywhere args p
    everywhere =
        let (e, all) = map-HasAll (group_ids args) ns in
        (
          ap ids nodes ∙ e ∙ same,
          subst (All (HasAll (group_ids args))) (sym nodes) all,
          initializations-each args.nodes cs (group_ids args) p pos traces
              (subst (λ ms. All (AllStart (voters args) cs ms) (group_ids args)) same starts),
        )

    ended :
        (r : Option (Option ℕ))
        → Waits shows (group_ids args) r
        → (ended : Ended Process) × (waited args p r ≡ some ended) × Ends m shows chance args ended
    ended none x = elim x [ ]
    ended (some none) h = (
      serving p (key_source 0) (not args.no_auto_propose) [],
      refl,
      (everywhere, h, refl, refl, refl),
    )
    ended (some (some gid)) (c, h) = (leaderless p, refl, (everywhere, (gid, c, h)))

-- Where a round of a wait that sleeps takes 50 ms or more, `run_cluster` ends: any fuel above 201
-- is enough for each wait. It rejects its arguments only if they ask for no nodes or no groups, and
-- it does not start only if the data directory cannot be made. It fails to create a group only if
-- the start or the initialization of one fails on some node, and then no group has been initialized
-- twice. Otherwise all nodes have all groups, and each group has been initialized exactly once; the
-- run then serves, with each group seen to have a leader before its deadline, unless some group
-- shows none before its deadline.
pub run_cluster-Ends :
    (json : TotalCodec Ads) (m : Machine) (fuel : ℕ) (shows : Shows) (chance : ℕ → ℕ → Chance)
    (args : Args)
    → ((gid : ℕ) → Sleeps (shows.clock gid))
    → 201 < fuel
    → (ended : Ended Process) × (run_cluster json m fuel shows chance args ≡ some ended)
      × Ends m shows chance args ended
unfolding run_cluster
run_cluster-Ends json m fuel shows chance args sleeps enough =
    let (accepts, rejects) = validate_counts-Counts args in
    elim (Bool-cases (validate_counts args)) [
      | inr e ↦ rw e (rejected, refl, rejects e)
      | inl e ↦
          let (fits, same) = first_node-Fits m args (voters args) (voters args) (
            All-range (λ id. contains (voters args) id ≡ true) 1 args.nodes
              λ i le lt. contains-range i 1 args.nodes le lt) in
          rw e (
            made-Reaches (Ends m shows chance args) m.dir_made _ (λ d. d)
              λ d. rw (nodes-start_cluster json (map (seat_for m args) (voters args)) new_router) (
                filled-Ends m fuel shows chance args _ (accepts e) same
                  (wait_each-Waits fuel shows (group_ids args) sleeps enough) _
                  (create_everywhere-OnAll (voters args) chance args.groups 0 _ no_glue fits)))
    ]
