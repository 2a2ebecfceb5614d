-- ===== src/External.antt =====
-- What the sources call and do not contain: the `hex` crate and the JSON values of `serde_json`.
-- Each is an interface whose operations the models take as a parameter.
use block_ex.Prelude.{ℕ, Bool, Option, List, String, Bytes}
use block_ex.Prelude.Int.{ℤ}

-- `hex::decode` and `hex::encode`.
pub record Hex : Type 0 where
  pub decode : String → Option Bytes
  pub encode : Bytes → String

-- `serde_json::Value` with its documented accessors. `as_str` and `as_array` tell the two kinds of
-- value apart on which the sources match.
pub record Json : Type 1 where
  pub Value : Type 0
  pub from_str : String → Option Value
  pub to_string : Value → String
  pub get : Value → String → Option Value
  pub as_array : Value → Option (List Value)
  pub as_str : Value → Option String
  pub as_u64 : Value → Option ℕ
  pub as_i64 : Value → Option ℤ
  pub is_null : Value → Bool
