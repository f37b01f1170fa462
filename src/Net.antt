-- ===== src/Net.antt =====
-- crates/multiraft-net/src: the connections between nodes, and how a message finds its group.
pub mod Dispatch
pub mod Router
pub mod Channels
pub mod Grpc
pub mod Factories
mod Tests
