-- ===== src/Demo/Run/Tests.antt =====
-- Runs of the demo at concrete arguments: three nodes, two groups.
use bf_multiraft.Base.{ℕ, zero, suc, ◌*◌, ◌≡◌, true, false, none, some, [], ◌∷◌, arith}
use bf_multiraft.Io.{calm}
use bf_multiraft.Fsm.{ok}
use bf_multiraft.Core.{voter}
use bf_multiraft.Facade.{MultiRaft, initialized, init_failed}
use bf_multiraft.Facade.Tests.Nodes.{ads_json}
use bf_multiraft.Demo.{Args}
use bf_multiraft.Demo.Startup.{Chance}
use bf_multiraft.Demo.Run.{Process, Ended, Shows, Machine, Weather, run_cluster, run_node}
use bf_multiraft.Demo.Run.Cluster
use bf_multiraft.Demo.Run.Cluster.{run_cluster-Ends}
use bf_multiraft.Demo.Run.Single
use bf_multiraft.Demo.Run.Single.{run_node-Ends}

abbrev args : Args
args = record {
  node_id = some 2;
  base_port = 21000;
  groups = 2;
  data_dir = 100 ∷ [];
  nodes = 3;
  role = voter;
  no_auto_propose = false;
}

abbrev machine : Machine
machine = record {
  dir_made = true;
  node_dir = λ id. id ∷ [];
  tx = λ id. id;
  file = λ id. calm none;
}

-- Node 1 leads in each round; a round takes 150 ms.
abbrev shows : Shows
shows = record {
  clock = λ gid k. k * 150;
  look = λ gid k. record { leader = some 1; is_leader = true } ∷ [];
}

abbrev lucky : ℕ → ℕ → Chance
lucky gid id = (ok tt, initialized)

run_cluster-Ends_example :
    (ended : Ended Process) × (run_cluster ads_json machine 202 shows lucky args ≡ some ended)
    × Cluster.Ends machine shows lucky args ended
run_cluster-Ends_example =
    run_cluster-Ends ads_json machine 202 shows lucky args (λ gid k. omega arith) (omega arith)

-- The first attempt fails to initialize group 1.
abbrev chance : ℕ → ℕ → Chance
chance (suc zero) (suc zero) = (ok tt, init_failed)
chance k g = (ok tt, initialized)

abbrev weather : Weather
weather = record {
  dir_made = true;
  binds = λ addr. true;
  chance = chance;
  clock = λ k. k * 150;
  sees = λ gid k. true;
}

run_node-Ends_example :
    (ended : Ended MultiRaft) × (run_node ads_json 7 (calm none) 302 weather false args
      ≡ some ended)
    × Single.Ends weather args ended
run_node-Ends_example =
    run_node-Ends ads_json 7 (calm none) 302 weather false args (λ k. omega arith) (omega arith)
