-- ===== src/Net/Channels.antt =====
-- crates/multiraft-net/src/grpc/router.rs: the cache of channels to the peers. Tasks run
-- `channel_for` side by side: between two steps of a task, which are what it does under one lock or
-- up to an `await`, other tasks take steps of theirs. A channel is a number.
pub mod Reuse
pub mod Moves
pub mod Linked
pub mod Links
use bf_multiraft.Base.{ℕ, zero, suc, ◌≡◌, Option, none, some, List, [], ◌∷◌, length}
use bf_multiraft.OrdMap.{OrdMap, lookup, insert}
use bf_multiraft.Core.{SocketAddr}
use bf_multiraft.Net.Router.{ConnMetrics, record_peer}

pub record GrpcRouter : Type 0 where
  pub self_id : ℕ
  pub peers : OrdMap SocketAddr
  pub channels : OrdMap ℕ
  pub metrics : ConnMetrics

-- `collect` into a map: a later address of a peer replaces an earlier one.
unfoldable pub collect_peers : List (ℕ × SocketAddr) → OrdMap SocketAddr → OrdMap SocketAddr
collect_peers [] found = found
collect_peers ((id, addr) ∷ peers) found = collect_peers peers (insert id addr found)

unfoldable pub new : List (ℕ × SocketAddr) → ℕ → GrpcRouter
new peers self_id = record {
  self_id = self_id;
  peers = collect_peers peers [];
  channels = [];
  metrics = record { peers = [] };
}

-- The peers to which a channel has been recorded.
unfoldable pub unique_peer_links : GrpcRouter → ℕ
unique_peer_links router = length router.metrics.peers

-- Where a task stands in `channel_for`.
pub data Stage : Type 0 where
  starts : Stage
  connects : SocketAddr → Stage
  connected : ℕ → Stage
  records : ℕ → Stage
  returned : ℕ → Stage
  failed : Stage

pub record Task : Type 0 where
  pub peer : ℕ
  pub stage : Stage

-- The first lock, and the address of the peer.
abbrev look_up : Option ℕ → Option SocketAddr → Stage
look_up (some ch) addr = returned ch
look_up none none = failed
look_up none (some addr) = connects addr

abbrev pub await_connect : Option ℕ → Stage
await_connect none = failed
await_connect (some ch) = connected ch

-- The second lock: the channel that another task has inserted is reused.
abbrev pub insert_or_reuse : ℕ → ℕ → Option ℕ → GrpcRouter → GrpcRouter × Stage
insert_or_reuse peer ch (some existing) router = (router, returned existing)
insert_or_reuse peer ch none router =
    (record router { channels = insert peer ch router.channels }, records ch)

-- The next step of a task for `peer`; `outcome` is what its `connect` gives, if that is the step.
unfoldable pub channel_for : Option ℕ → ℕ → Stage → GrpcRouter → GrpcRouter × Stage
channel_for outcome peer starts router =
    (router, look_up (lookup peer router.channels) (lookup peer router.peers))
channel_for outcome peer (connects addr) router = (router, await_connect outcome)
channel_for outcome peer (connected ch) router =
    insert_or_reuse peer ch (lookup peer router.channels) router
channel_for outcome peer (records ch) router =
    (record router { metrics = record_peer peer router.metrics }, returned ch)
channel_for outcome peer (returned ch) router = (router, returned ch)
channel_for outcome peer failed router = (router, failed)

abbrev pub System : Type 0
System = GrpcRouter × List Task

abbrev pub and_task : Task → System → System
and_task t (router, tasks) = (router, t ∷ tasks)

-- A step of the task at a position.
unfoldable pub step : ℕ → Option ℕ → List Task → GrpcRouter → System
step n outcome [] router = (router, [])
step zero outcome (t ∷ tasks) router =
    let (router', stage) = channel_for outcome t.peer t.stage router in
    (router', record { peer = t.peer; stage = stage } ∷ tasks)
step (suc n) outcome (t ∷ tasks) router = and_task t (step n outcome tasks router)

-- A schedule: which task steps, and what its connecting would give.
unfoldable pub run : List (ℕ × Option ℕ) → List Task → GrpcRouter → System
run [] tasks router = (router, tasks)
run ((n, outcome) ∷ schedule) tasks router =
    let (router', tasks') = step n outcome tasks router in run schedule tasks' router'

-- Tasks that have not begun.
unfoldable pub begun : List ℕ → List Task
begun [] = []
begun (p ∷ ps) = record { peer = p; stage = starts } ∷ begun ps
