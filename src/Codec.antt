-- ===== src/Codec.antt =====
-- serde_json, as the stores use it for one type: `to_vec` may fail, and what it writes reads back.
use bf_multiraft.Base.{◌≡◌, Option, some, Bytes}

pub record Codec (A : Type 0) : Type 0 where
  pub to_vec : A → Option Bytes
  pub from_slice : Bytes → Option A
  pub round_trip : (a : A) (b : Bytes) → to_vec a ≡ some b → from_slice b ≡ some a

-- The same for a type of numbers and sequences of them, on which `to_vec` does not fail, so that
-- its `unwrap` does not panic.
pub record TotalCodec (A : Type 0) : Type 0 where
  pub to_vec : A → Bytes
  pub from_slice : Bytes → Option A
  pub round_trip : (a : A) → from_slice (to_vec a) ≡ some a
