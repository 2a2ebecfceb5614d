-- ===== src/Reorg.antt =====
-- ingestor/src/reorg.rs: the way back to the last block that the database and the daemon share, and
-- the removal of what stands above it.
pub mod Fork
pub mod Requeued
pub mod Heal
pub mod Outcome
pub mod Errors
pub mod Causes
pub mod Termination
use block_ex.Prelude.{ℕ, zero, suc, ◌+◌, Bool, true, false, Option, none, some, Bytes, bytes_eq}
use block_ex.Prelude.Int.{ℤ, pos, pos_part, ◌+ℤ◌, ◌-ℤ◌}
use block_ex.Prelude.Order.{leb_ℤ}
use block_ex.Prelude.Words.{as_u64}
use block_ex.Result.{Result, ok, err, running, ok_or, hex_decode, no_db_block, reorg_exceeds}
use block_ex.World.{
  Env, World, M, query, execute, transaction, call, pure, lift, raise, ◌>>=◌, ◌>>◌,
}
use block_ex.Store.{block_hash_at, requeue_mempool_from_block, delete_tips, delete_blocks}

module _ (env : Env) where
  -- `store.block_hash_at(h).await?.ok_or_else(…)?`
  unfoldable pub db_hash_at : ℤ → M Bytes
  db_hash_at h = do found ← block_hash_at env h; lift (ok_or (no_db_block h) found)

  -- `rpc.get_block_header_by_height(h as u64)` and the decoding of its hash.
  unfoldable pub live_hash_at : ℤ → M Bytes
  live_hash_at h = do
    live_hdr ← call (λ n. env.rpc.get_block_header_by_height n (as_u64 h))
    lift (ok_or hex_decode (env.hex.decode live_hdr.block_header.hash))

  -- The end of a round: the loop is left with `h`, or goes on with the block below.
  unfoldable pub compare_hashes : (ℤ → ℕ → Bytes → M ℤ) → ℤ → ℕ → Bytes → Bytes → M ℤ
  compare_hashes again h steps db_hash live = elim (bytes_eq live db_hash) [
    | true ↦ pure h
    | false ↦ do below ← db_hash_at (h -ℤ pos 1); again (h -ℤ pos 1) (steps + 1) below
  ]

  -- A round of the loop. `again` is the next round.
  unfoldable pub round : (ℤ → ℕ → Bytes → M ℤ) → ℤ → ℤ → ℕ → Bytes → M ℤ
  round again finality_window h steps db_hash = elim (leb_ℤ (pos steps) finality_window) [
    | false ↦ raise (reorg_exceeds finality_window (pos steps))
    | true ↦ do live ← live_hash_at h; compare_hashes again h steps db_hash live
  ]

  unfoldable pub find_fork : ℕ → ℤ → ℤ → ℕ → Bytes → M ℤ
  find_fork zero finality_window h steps db_hash = lift running
  find_fork (suc fuel) finality_window h steps db_hash =
      round (find_fork fuel finality_window) finality_window h steps db_hash

  -- `for height in fork_height..start_height`, by the number of heights.
  unfoldable pub requeue_range : ℕ → ℤ → M (Unit {0})
  requeue_range zero height = pure tt
  requeue_range (suc n) height = do
    requeue_mempool_from_block env height
    requeue_range n (height +ℤ pos 1)

  -- The body of the transaction.
  unfoldable pub unwind : ℤ → ℤ → M (Unit {0})
  unfolding requeue_range
  unwind fork_height start_height = do
    requeue_range (pos_part (start_height -ℤ fork_height)) fork_height
    execute env (delete_tips fork_height)
    execute env (delete_blocks fork_height)

  -- The loop takes a step for each height of the window at most, and one to find the window left.
  unfoldable pub heal_reorg : ℤ → ℤ → M (Unit {0})
  unfolding find_fork unwind
  heal_reorg start_height finality_window = do
    let h = start_height -ℤ pos 1
    db_hash ← db_hash_at h
    h' ← find_fork (pos_part finality_window + 2) finality_window h 0 db_hash
    transaction env (unwind (h' +ℤ pos 1) start_height)
