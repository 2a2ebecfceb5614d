-- ===== src/Reorg/Causes.antt =====
-- reorg.rs: what an error of `heal_reorg` says of the database and the daemon.
use block_ex.Prelude.{ℕ, ◌≡◌, false, none, String}
use block_ex.Prelude.Int.{ℤ}
use block_ex.Prelude.Order.{leb_ℤ}
use block_ex.Prelude.Words.{as_u64}
use block_ex.Result.{Error, db, rpc, hex_decode, no_db_block, reorg_exceeds}
use block_ex.Db.{Db}
use block_ex.World.{Env, World}
use block_ex.World.Causes.{DbCause}
use block_ex.Store.{hash_at}

-- A statement has failed or the database cannot decode a text; the daemon has not answered a request for
-- a header; a hash is no hexadecimal text; the block that the error names is not stored; or the window
-- that is given, which the error names, does not reach the shared block.
abbrev pub IsCaused : Env → ℤ → Db → Error → Type 0
IsCaused env fw d db = DbCause env
IsCaused env fw d rpc = (n : ℕ) × (h : ℤ) × (env.rpc.get_block_header_by_height n (as_u64 h) ≡ none)
IsCaused env fw d hex_decode = (s : String) × (env.hex.decode s ≡ none)
IsCaused env fw d (no_db_block h) = hash_at h d ≡ none
IsCaused env fw d (reorg_exceeds window steps) = (window ≡ fw) × (leb_ℤ steps fw ≡ false)
IsCaused env fw d _ = ⊥
