-- ===== src/Demo/Status/Agreement.antt =====
-- The status shows what requests for the values would be answered.
use bf_multiraft.Base.{
  ℕ, ◌≡◌, refl, ap₂, true, Option, none, some, List, [], ◌∷◌, All, map, arith, contains,
}
use bf_multiraft.Fsm.{Result, ok, err}
use bf_multiraft.Fsm.Counter.{CounterFsm}
use bf_multiraft.Net.Channels.{GrpcRouter}
use bf_multiraft.Facade.Requests.{RaftApi}
use bf_multiraft.Demo.Nodes.{Status, service_unavailable, Node, DemoState, first_leader}
use bf_multiraft.Demo.Links.{metrics_links}
use bf_multiraft.Demo.Reads.{
  Consistency, GroupValueResp, value_resp, value_answer, group_value, read_group_value_best_effort,
}
use bf_multiraft.Demo.Status.{StatusLine, status_line, print_groups, print_status}

contains_more :
    (x : ℕ) (xs gs : List ℕ)
    → All (λ g. contains xs g ≡ true) gs
    → All (λ g. contains (x ∷ xs) g ≡ true) gs
unfolding contains
contains_more x xs [] h = tt
contains_more x xs (g ∷ gs) (h, hs) = (ground arith, contains_more x xs gs hs)

contains_self : (gs : List ℕ) → All (λ g. contains gs g ≡ true) gs
unfolding contains
contains_self [] = tt
contains_self (g ∷ gs) = (ground arith, contains_more g gs gs (contains_self gs))

module _ (A : RaftApi CounterFsm) where
  abbrev answer_of : ℕ → Option ℕ → ℕ → Option Consistency → Result Status GroupValueResp
  answer_of group leader v none = err service_unavailable
  answer_of group leader v (some c) = ok (value_resp A group leader (v, c))

  -- The answer that a line stands for.
  abbrev pub answer_shown : StatusLine → Result Status GroupValueResp
  answer_shown line = answer_of line.group line.leader line.value line.consistency

  -- Requests for the values of the groups in turn.
  abbrev pub get_values : List ℕ → DemoState A → List (Result Status GroupValueResp) × DemoState A
  get_values [] s = ([], s)
  get_values (gid ∷ gids) s =
      let (r, s') = group_value A gid s in let (rs, s'') = get_values gids s' in (r ∷ rs, s'')

  shown-answer :
      (links gid : ℕ) (leader : Option ℕ) (r : Result (Unit {0}) (ℕ × Consistency))
      → answer_shown (status_line links gid leader r) ≡ value_answer A gid leader r
  shown-answer links gid leader (ok (v, c)) = refl
  shown-answer links gid leader (err u) = refl

  print_groups-Values :
      (links : ℕ) (gids : List ℕ) (s : DemoState A)
      → All (λ g. contains s.group_ids g ≡ true) gids
      → (map answer_shown (print_groups A links gids s.nodes).0 ≡ (get_values gids s).0)
        × (record s { nodes = (print_groups A links gids s.nodes).1 } ≡ (get_values gids s).1)
  unfolding print_groups group_value
  print_groups-Values links [] s h = (refl, refl)
  print_groups-Values links (gid ∷ gids) s (h, hs) =
      let (r, read) = read_group_value_best_effort A gid s.nodes in
      let (same, left) = print_groups-Values links gids (record s { nodes = read }) hs in
      rw h (ap₂ (λ x xs. x ∷ xs) (shown-answer links gid (first_leader A gid s.nodes) r) same, left)

  line_links :
      (links gid : ℕ) (leader : Option ℕ) (r : Result (Unit {0}) (ℕ × Consistency))
      → (status_line links gid leader r).unique_peer_links ≡ links
  line_links links gid leader (ok (v, c)) = refl
  line_links links gid leader (err u) = refl

  shown_links :
      (links : ℕ) (gids : List ℕ) (ns : List (Node A))
      → All (λ line. line.unique_peer_links ≡ links) (print_groups A links gids ns).0
  unfolding print_groups
  shown_links links [] ns = tt
  shown_links links (gid ∷ gids) ns =
      let (r, read) = read_group_value_best_effort A gid ns in
      (line_links links gid (first_leader A gid ns) r, shown_links links gids read)

  -- The status that is printed of the groups stands for the answers that requests for their values
  -- would get in turn, and leaves the server in the state in which these would leave it; each line
  -- shows the links that `GET /metrics/links` answers with.
  pub print_status-Values :
      (peers : GrpcRouter) (s : DemoState A)
      → (map answer_shown (print_status A peers s).0 ≡ (get_values s.group_ids s).0)
        × ((print_status A peers s).1 ≡ (get_values s.group_ids s).1)
        × All (λ line. line.unique_peer_links ≡ metrics_links A peers s) (print_status A peers s).0
  unfolding print_status
  print_status-Values peers s =
      let (same, left) =
        print_groups-Values (metrics_links A peers s) s.group_ids s (contains_self s.group_ids) in
      (same, left, shown_links (metrics_links A peers s) s.group_ids s.nodes)
