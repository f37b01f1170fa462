-- ===== src/RaftTypes.antt =====
-- What the log stores take from openraft: the types of one `RaftTypeConfig`, with the accessors of
-- log ids and entries that the stores call.
use bf_multiraft.Base.{ℕ, ◌≡◌, Bool}

pub record RaftTypes : Type 1 where
  pub LogId : Type 0
  pub Vote : Type 0
  pub Entry : Type 0
  -- `LogId::index`, and the order of log ids.
  pub index : LogId → ℕ
  pub log_id_le : LogId → LogId → Bool
  -- `RaftEntry::log_id` and `RaftEntry::index`.
  pub log_id : Entry → LogId
  pub entry_index : Entry → ℕ
  pub index-log_id : (e : Entry) → index (log_id e) ≡ entry_index e
