-- ===== src/Log.antt =====
-- The two implementations of openraft's `RaftLogStorage`.
pub mod Memory
pub mod File
pub mod Tests
