-- ===== src/Lib.antt =====
-- Verification of multiraft: many Raft groups on the nodes of one cluster, each with its own log,
-- state machine and snapshots, over one connection per pair of nodes.
--
-- The parts, each a module of this library, with the files of the repository it models:
--
--   Core: crates/multiraft-core/src (config.rs, error.rs, snapshot.rs, type_config.rs), the types
--   that the crates share, and the test for the payload that triggers a standby snapshot. Its child
--   Decimal has numbers as decimal text and the names `{index}-{term}`.
--   Fsm: crates/multiraft-fsm/src/lib.rs, the trait of a state machine as a record of operations,
--   with the laws under which a replica can take over from a snapshot. Fsm.Counter is the counter of
--   counter_fsm.rs.
--   Log: the two log stores of crates/multiraft-store/src. Log.Memory is log_mem.rs; Log.File is
--   log_file.rs, which keeps the same state in two JSON files that it replaces by renaming. A call
--   of openraft is a value of the data type Call, and `step` and `run` perform calls.
--   Catalog: crates/multiraft-store/src/snapshot_catalog.rs, snapshots on disk, one directory each.
--   Bridge: crates/multiraft-store/src/sm_bridge.rs, which applies committed entries to a state
--   machine, builds and installs snapshots, and serves them from memory or from the catalog.
--   Net: crates/multiraft-net/src (conn_metrics.rs, router.rs, network.rs, api.rs, node.rs,
--   grpc/router.rs, grpc/server.rs) and stub_network.rs of crates/multiraft-store/src, how a message
--   to a group of a node finds it, in process and over gRPC.
--   Facade: crates/multiraft-net/src/multiraft.rs, the nodes of a cluster. The file Facade has
--   the creation of groups, Start the start of nodes (with node.rs), alone or on a shared fabric,
--   Spawn that of a group, Requests what a node asks of its groups, Leaders the watch of a leader and
--   the wait for one, Runtime the advertisements of snapshots and their file, Recovery the catalog of
--   a standby, with Handover for both ends of it.
--   Demo: crates/multiraft-demo/src/main.rs, the demo server. The file Demo has its arguments,
--   addresses and keys, Run the two modes in which it starts, with Startup for the creation of the
--   groups of a node, Nodes, Writes, Reads, Snapshots and Links its HTTP handlers, which call the
--   Facade, Publish how a standby tells the voters of a snapshot, and Status what it prints.
--
-- Base, OrdMap, Io, Codec and RaftTypes are what these share. A `BTreeMap<u64, _>` is its entries in
-- ascending order of the keys (OrdMap). A fallible file operation is a function of the disk and of a
-- schedule of outcomes that the environment chooses (Io): a theorem for every schedule covers every
-- fault, also a crash, after which every operation fails. A panic is `none`. Numbers are natural
-- numbers, and a 64-bit sum has its wrap-around written out. The loops over
-- lists are structural. On fuel are `digits` of Core.Decimal, which divides by ten and is given more
-- fuel than the number, and the two waits for a leader, `wait_for_leader` and
-- `wait_local_sees_leaders`, with `run_cluster` and `run_node`, which wait: a round that sleeps lasts
-- 50 or 100 ms, so one more round than fit in the timeout is enough fuel. Their clock and
-- what the nodes show in a round are arguments.
--
-- What is not under the repository is a parameter: openraft's log ids, votes, entries and
-- memberships (RaftTypes, Bridge.SmTypes) and its handle of a group (Net.Dispatch.OpenRaft for the
-- messages, Facade.Requests.RaftApi for the requests, Facade.Spawn.Openraft for its start),
-- serde_json (Codec, Fsm.Counter.Serde), SHA-256 and the order of a directory (Catalog.Params). The
-- laws asked of them are that what serde_json writes reads back and is UTF-8, also an error that is
-- read at another type of answers, that an entry's log id has the entry's index, that iterating over
-- a set visits its members, that a new entry of a directory comes somewhere among the others, whose
-- order it keeps (Catalog.RoundTrip.Places), and that openraft appends one entry for a write that it
-- accepts, none for one that it forwards, and at most one for another that fails
-- (Demo.Writes.Entries.Appending).
--
-- Not modelled: the Raft protocol, which openraft runs; threads and the locks, as each
-- operation runs under one; of the demo server the parsing of the command line, the HTTP server and
-- client below the requests, the log lines and the sleeps between rounds.
pub mod Base
pub mod OrdMap
pub mod Io
pub mod Codec
pub mod RaftTypes
pub mod Core
pub mod Log
pub mod Fsm
pub mod Catalog
pub mod Bridge
pub mod Net
pub mod Facade
pub mod Demo
