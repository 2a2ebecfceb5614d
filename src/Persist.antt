-- ===== src/Persist.antt =====
-- ingestor/src/work_persist.rs: a block and its transactions are written in one transaction; then
-- the checkpoint and the confirmations of recent blocks follow.
pub mod Prepare
pub mod Stored
pub mod Atomic
pub mod Progress
pub mod Height
use block_ex.Prelude.{
  ℕ, ◌+◌, ◌-◌, ◌^◌, Bool, true, false, Option, none, some, List, [], ◌∷◌, map, String, Bytes,
  length, update, if◌then◌else◌,
}
use block_ex.Prelude.Int.{ℤ, pos, negsuc, ◌+ℤ◌, ◌-ℤ◌, ◌≤ℤ◌}
use block_ex.Prelude.Order.{leb_ℤ, eq_ℤ, min_ℤ, max_ℤ}
use block_ex.Prelude.Words.{i64_try_from, i32_try_from}
use block_ex.Result
use block_ex.Result.{Result, ok, err, running, ok_or, hex_decode, overflow}
use block_ex.External.{Json}
use block_ex.Db.{Db, BlockRow, TxRow}
use block_ex.Rpc.{BlockHeader}
use block_ex.Pipeline.{TxMsg}
use block_ex.World.{Env, World, M, execute, transaction, pure, lift, ◌>>=◌, ◌>>◌}
use block_ex.Store.{
  insert_block, insert_tx, evict_mempool_on_inclusion, record_tip, update_block_confirmations_tx,
  refresh_confirmations,
}
use block_ex.Store.SoftFacts.{upsert_soft_facts_for_block}
use block_ex.Checkpoint
use block_ex.Persist.Prepare.{PreparedTx, Decoders, or_i32_max, prepare_block}

pub record Config : Type 0 where
  pub finality_window : ℕ
  pub do_analytics : Bool

-- The row of a header. The columns that the statement leaves out have their defaults.
unfoldable pub block_row : Env → BlockHeader → ℕ → Result BlockRow
block_row env header tx_count = Result.◌>>=◌ (ok_or hex_decode (env.hex.decode header.hash)) λ hash.
    Result.◌>>=◌ (ok_or hex_decode (env.hex.decode header.prev_hash)) λ prev_hash.
      Result.◌>>=◌ (ok_or overflow (i64_try_from header.timestamp)) λ ts.
        Result.◌>>=◌ (ok_or overflow (i32_try_from header.major_version)) λ major.
          Result.◌>>=◌ (ok_or overflow (i32_try_from header.minor_version)) λ minor.
            Result.◌>>=◌ (ok_or overflow (i64_try_from header.nonce)) λ nonce.
              Result.◌>>=◌ (ok_or overflow (i64_try_from header.reward)) λ reward.
                Result.◌>>=◌ (ok_or overflow (i64_try_from header.height)) λ height. ok (record {
                  height = height;
                  hash = hash;
                  prev_hash = prev_hash;
                  block_timestamp = ts;
                  size_bytes = or_i32_max (i32_try_from header.size);
                  major_version = major;
                  minor_version = minor;
                  nonce = nonce;
                  tx_count = or_i32_max (i32_try_from tx_count);
                  reward_nanos = reward;
                  confirmations = pos 0;
                  is_final = false;
                  analytics_pending = true;
                })

unfoldable pub tx_row : BlockRow → PreparedTx → TxRow
tx_row block tx = record {
  tx_hash = tx.hash;
  block_height = some block.height;
  block_timestamp = some block.block_timestamp;
  in_mempool = false;
  fee_nanos = tx.fee;
  size_bytes = tx.size_bytes;
  version = tx.version;
  unlock_time = tx.unlock_time;
  extra = tx.extra;
  rct_type = tx.rct_type;
  proof_type = tx.proof_type;
  bp_plus = tx.bp_plus;
  num_inputs = tx.num_inputs;
  num_outputs = tx.num_outputs;
}

-- Saturating arithmetic on i64.
unfoldable pub clamp_i64 : ℤ → ℤ
clamp_i64 n = max_ℤ (min_ℤ n (pos (2 ^ 63 - 1))) (negsuc (2 ^ 63 - 1))

-- `i32::try_from(n).unwrap_or(i32::MAX)` of an i64.
unfoldable pub i32_saturated : ℤ → ℤ
i32_saturated (pos n) = pos (or_i32_max (i32_try_from n))
i32_saturated (negsuc n) = elim (i32_try_from n) [ some m ↦ negsuc m | none ↦ pos (2 ^ 31 - 1) ]

unfoldable pub confirmations_of : ℤ → ℤ → ℤ
unfolding clamp_i64 i32_saturated
confirmations_of tip_height block_height =
    i32_saturated (clamp_i64 (clamp_i64 (tip_height -ℤ block_height) +ℤ pos 1))

-- `(msg.tip_height - span).max(0)`, where `i64::MAX / 2` stands for a window that does not fit.
unfoldable pub window_start : ℕ → ℤ → ℤ
window_start finality_window tip_height =
    let window = elim (i64_try_from finality_window) as (λ _. ℤ) [
      | some n ↦ n
      | none ↦ pos (2 ^ 62 - 1)
    ] in
    max_ℤ (tip_height -ℤ (max_ℤ window (pos 1) +ℤ pos 16)) (pos 0)

unfoldable pub mark_pending : ℤ → Db → Db
mark_pending height d = record d {
  blocks = update (λ b. eq_ℤ b.height height) (λ b. record b { analytics_pending = true }) d.blocks;
}

-- `.await.ok()` forgets a failure.
unfoldable pub forget : M (Unit {0}) → M (Unit {0})
forget m w = (ok tt, (m w).1)

module _ (env : Env) where
  unfoldable pub insert_txs : BlockRow → List PreparedTx → M (Unit {0})
  insert_txs block [] = pure tt
  insert_txs block (tx ∷ txs) = do insert_tx env (tx_row block tx); insert_txs block txs

  unfoldable pub soft_facts_step : Bool → ℤ → M (Unit {0})
  soft_facts_step true height = upsert_soft_facts_for_block env height
  soft_facts_step false height = pure tt

  -- The statements behind the inserts.
  unfoldable pub write_rest : Config → TxMsg → List PreparedTx → BlockRow → M BlockRow
  unfolding soft_facts_step
  write_rest cfg msg txs block = do
    evict_mempool_on_inclusion env (map (λ tx. tx.hash_hex) txs)
    record_tip env block.height block.hash block.prev_hash
    soft_facts_step cfg.do_analytics block.height
    update_block_confirmations_tx env block.height (confirmations_of msg.tip_height block.height)
        (leb_ℤ block.height msg.finalized_height)
    pure block

  -- The statements between `begin` and `commit`.
  unfoldable pub write_block : Config → TxMsg → List PreparedTx → M BlockRow
  unfolding write_rest insert_txs
  write_block cfg msg txs = do
    block ← lift (block_row env msg.header (length txs))
    insert_block env block
    insert_txs block txs
    write_rest cfg msg txs block

  unfoldable pub pending_step : Bool → ℤ → M (Unit {0})
  unfolding forget
  pending_step true height = pure tt
  pending_step false height = forget (execute env (mark_pending height))

  -- What follows the commit.
  unfoldable pub after_commit : Config → TxMsg → BlockRow → M (Unit {0})
  unfolding pending_step
  after_commit cfg msg block = do
    pending_step cfg.do_analytics block.height
    Checkpoint.set env block.height msg.finalized_height
    refresh_confirmations env (window_start cfg.finality_window msg.tip_height) msg.tip_height
        msg.finalized_height

  unfoldable pub persist_block : Config → TxMsg → List PreparedTx → M (Unit {0})
  persist_block cfg msg txs = do
    block ← transaction env (write_block cfg msg txs)
    after_commit cfg msg block

module _ (env : Env) (json : Json) (dec : Decoders json) (cfg : Config) where
  -- The loop of `run`, over the messages that arrive.
  unfoldable pub run : List TxMsg → M (Unit {0})
  run [] = pure tt
  run (msg ∷ msgs) = do
    prepared ← lift (prepare_block env.hex json dec msg cfg.do_analytics)
    persist_block env cfg msg prepared
    run msgs
