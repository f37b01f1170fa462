-- ===== src/Demo/Status.antt =====
-- crates/multiraft-demo/src/main.rs: the status that the server prints of its groups.
pub mod Agreement
use bf_multiraft.Base.{ℕ, Option, none, some, List, [], ◌∷◌}
use bf_multiraft.Fsm.{Result, ok, err}
use bf_multiraft.Fsm.Counter.{CounterFsm}
use bf_multiraft.Net.Channels.{GrpcRouter}
use bf_multiraft.Facade.Requests.{RaftApi}
use bf_multiraft.Demo.Nodes.{Node, DemoState, first_leader}
use bf_multiraft.Demo.Links.{metrics_links}
use bf_multiraft.Demo.Reads.{Consistency, read_group_value_best_effort}

-- One line; no consistency stands for `unavailable`.
pub record StatusLine : Type 0 where
  pub group : ℕ
  pub leader : Option ℕ
  pub value : ℕ
  pub consistency : Option Consistency
  pub unique_peer_links : ℕ

abbrev pub status_line : ℕ → ℕ → Option ℕ → Result (Unit {0}) (ℕ × Consistency) → StatusLine
status_line links gid leader (ok (v, c)) = record {
  group = gid;
  leader = leader;
  value = v;
  consistency = some c;
  unique_peer_links = links;
}
status_line links gid leader (err u) = record {
  group = gid;
  leader = leader;
  value = 0;
  consistency = none;
  unique_peer_links = links;
}

module _ (A : RaftApi CounterFsm) where
  -- The loop over the groups; a read may leave the nodes in another state.
  unfoldable pub print_groups : ℕ → List ℕ → List (Node A) → List StatusLine × List (Node A)
  print_groups links [] ns = ([], ns)
  print_groups links (gid ∷ gids) ns =
      let (r, read) = read_group_value_best_effort A gid ns in
      let (lines, left) = print_groups links gids read in
      (status_line links gid (first_leader A gid ns) r ∷ lines, left)

  unfoldable pub print_status : GrpcRouter → DemoState A → List StatusLine × DemoState A
  print_status peers s =
      let (lines, ns) = print_groups (metrics_links A peers s) s.group_ids s.nodes in
      (lines, record s { nodes = ns })
