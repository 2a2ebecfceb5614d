-- ===== src/Result.antt =====
-- The results of the fallible functions: `anyhow::Result` of the ingestor, with the failures that
-- the sources raise or pass on, and a third case for a loop that its fuel has not seen to the end.
pub mod Ensures
use block_ex.Prelude.{ℕ, Option, none, some}
use block_ex.Prelude.Int.{ℤ}

pub data Error : Type 0 where
  db : Error
  rpc : Error
  hex_decode : Error
  json_decode : Error
  overflow : Error
  no_db_block : ℤ → Error
  reorg_exceeds : ℤ → ℤ → Error
  reorg_detected : Error
  block_json_missing : ℕ → Error
  tx_count_mismatch : ℕ → ℕ → Error
  tx_hash_missing : Error
  extra_non_integer : Error
  extra_out_of_range : Error
  extra_format : Error

pub data Result {ℓ} (A : Type ℓ) : Type ℓ where
  ok : A → Result A
  err : Error → Result A
  running : Result A

infixl 5 ◌>>=◌ ◌>>◌
abbrev pub ◌>>=◌ {ℓ κ} : {A : Type ℓ} {B : Type κ} → Result A → (A → Result B) → Result B
ok a >>= f = f a
err e >>= f = err e
running >>= f = running

abbrev pub ◌>>◌ {ℓ κ} : {A : Type ℓ} {B : Type κ} → Result A → Result B → Result B
m >> k = m >>= λ _. k

-- `.ok_or(…)`, `.context(…)` on an option.
abbrev pub ok_or {ℓ} : {A : Type ℓ} → Error → Option A → Result A
ok_or e none = err e
ok_or e (some a) = ok a
