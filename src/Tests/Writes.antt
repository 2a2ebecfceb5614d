-- ===== src/Tests/Writes.antt =====
-- The theorems on what is written at a run: a third block on top of the two that are stored.
use block_ex.Prelude.{◌≡◌, refl, true, false, none, some, [], ◌∷◌, map, length, All, keep}
use block_ex.Prelude.Int.{pos}
use block_ex.Prelude.Order.{max_ℤ, min_ℤ}
use block_ex.Prelude.Words.{i64_try_from, i32_try_from}
use block_ex.Result.{ok}
use block_ex.Db.{BlockRow}
use block_ex.World.{Env, World, query, execute, attempt, transaction}
use block_ex.Store.{
  insert_block, insert_tx, record_tip, update_block_confirmations_tx, refresh_confirmations,
  with_decoded, evict_mempool_on_inclusion, requeue_rows, tx_hashes_at, requeue_mempool_from_block,
}
use block_ex.Store.Confirmations.{IsCurrent, key, refresh_confirmations-IsCurrent}
use block_ex.Store.Mempool.{
  RequeuedAt, Evicted, requeue_mempool_from_block-ok, evict_mempool_on_inclusion-ok,
}
use block_ex.Checkpoint
use block_ex.Checkpoint.{CheckpointState, get_state-set}
use block_ex.Persist
use block_ex.Persist.{
  block_row, tx_row, clamp_i64, i32_saturated, confirmations_of, window_start, mark_pending, forget,
  insert_txs, soft_facts_step, write_rest, write_block, pending_step, after_commit, persist_block,
}
use block_ex.Persist.Prepare.{PreparedTx}
use block_ex.Persist.Atomic.{AllOrNothing, persist_block-AllOrNothing}
use block_ex.Persist.Progress.{IsCheckpoint, persist_block-IsCheckpoint}
use block_ex.Analytics.{
  open_heights, sort_heights, insert_height, fill, fill_batch, backfill_loop, backfill,
}
use block_ex.Analytics.Ends.{Fills, backfill-Fills}
use block_ex.Store.SoftFacts.{
  txs_at, total_fee, sum_inputs, put_soft_facts, clear_pending, upsert_soft_facts_for_block,
}
use block_ex.Prelude.{arith, keep, contains, update, upsert}
use block_ex.Mempool
use block_ex.Mempool.{Event, received, timed_out, failed, refresh_from_pool, store_pool}
use block_ex.Mempool.Grows.{Grows, refresh_from_pool-ok, run-Grows}
use block_ex.Store.Mempool.{Requeued}
use block_ex.Prelude.{String, List}
use block_ex.Tests.Sample.{daemon, env, world, stored, decode-encode, header_at, tx_job}

abbrev prepared : PreparedTx
prepared = record {
  hash = 4 ∷ [];
  hash_hex = "aaaab";
  fee = some (pos 30);
  size_bytes = 15;
  version = 2;
  unlock_time = pos 0;
  extra = "";
  rct_type = pos 6;
  proof_type = none;
  bp_plus = true;
  num_inputs = 1;
  num_outputs = 2;
}

abbrev config : Persist.Config
config = record { finality_window = 5; do_analytics = false }

abbrev persisted : World
persisted = (persist_block env config tx_job (prepared ∷ []) world).1

persist_block-AllOrNothing_example :
    AllOrNothing env tx_job (prepared ∷ []) stored persisted.database
persist_block-AllOrNothing_example =
    persist_block-AllOrNothing env config tx_job (prepared ∷ []) world

persists : persist_block env config tx_job (prepared ∷ []) world ≡ (ok tt, persisted)
unfolding persist_block transaction execute attempt write_block block_row i64_try_from i32_try_from
    insert_block insert_txs insert_tx write_rest evict_mempool_on_inclusion with_decoded record_tip
    soft_facts_step update_block_confirmations_tx after_commit pending_step forget Checkpoint.set
    refresh_confirmations
persists = refl

persist_block-IsCheckpoint_example :
    (block : BlockRow) × (block_row env (header_at 3) (length (prepared ∷ [])) ≡ ok block)
    × IsCheckpoint block.height (pos 1) persisted.database
persist_block-IsCheckpoint_example =
    persist_block-IsCheckpoint env config tx_job (prepared ∷ []) world persists

abbrev refreshed : World
refreshed = (refresh_confirmations env (pos 0) (pos 4) (pos 1) world).1

refreshes : refresh_confirmations env (pos 0) (pos 4) (pos 1) world ≡ (ok tt, refreshed)
unfolding refresh_confirmations execute
refreshes = refl

refresh_confirmations-IsCurrent_example :
    All
      (IsCurrent (max_ℤ (min_ℤ (pos 0) (pos 4)) (pos 0)) (pos 4) (pos 1))
      refreshed.database.blocks
    × (map key refreshed.database.blocks ≡ map key stored.blocks)
refresh_confirmations-IsCurrent_example =
    refresh_confirmations-IsCurrent env (pos 0) (pos 4) (pos 1) world refreshes

abbrev requeued : World
requeued = (requeue_mempool_from_block env (pos 2) world).1

requeues : requeue_mempool_from_block env (pos 2) world ≡ (ok tt, requeued)
unfolding requeue_mempool_from_block query tx_hashes_at keep requeue_rows attempt with_decoded
requeues = refl

requeue_mempool_from_block-ok_example : RequeuedAt env (pos 2) stored requeued.database
requeue_mempool_from_block-ok_example =
    requeue_mempool_from_block-ok env (pos 2) world decode-encode requeues

abbrev evicted : World
evicted = (evict_mempool_on_inclusion env ("aaaaaaaab" ∷ "ab" ∷ []) world).1

evicts : evict_mempool_on_inclusion env ("aaaaaaaab" ∷ "ab" ∷ []) world ≡ (ok tt, evicted)
unfolding evict_mempool_on_inclusion attempt with_decoded
evicts = refl

evicts-Evicted : Evicted env ("aaaaaaaab" ∷ "ab" ∷ []) stored evicted.database
evicts-Evicted = evict_mempool_on_inclusion-ok env ("aaaaaaaab" ∷ "ab" ∷ []) world evicts

sets : (Checkpoint.set env (pos 8) (pos 3) world).0 ≡ ok tt
unfolding Checkpoint.set execute
sets = refl

gets :
    (Checkpoint.get_state env (Checkpoint.set env (pos 8) (pos 3) world).1).0
    ≡ ok (record { ingested_height = pos 8; finalized_height = pos 3 })
unfolding Checkpoint.set Checkpoint.get_state Checkpoint.state_of Checkpoint.set_last_height
    Checkpoint.set_finalized_height execute query
gets = refl

-- The daemon's pool has the hash that the stored mempool has not.
abbrev pooled : Env
pooled = record env {
  rpc = record daemon { get_transaction_pool_hashes = λ n. some ("aaab" ∷ []) };
}

abbrev pool_stored : World
pool_stored = (refresh_from_pool pooled world).1

pool_stores : refresh_from_pool pooled world ≡ (ok tt, pool_stored)
unfolding refresh_from_pool store_pool transaction execute requeue_rows attempt with_decoded
pool_stores = refl

refresh_from_pool-ok_example :
    (hashes : List String) × (pooled.rpc.get_transaction_pool_hashes 0 ≡ some hashes)
    × Requeued pooled hashes stored pool_stored.database
refresh_from_pool-ok_example = refresh_from_pool-ok pooled world pool_stores

abbrev events : List Event
events = received (some "raw_tx" ∷ []) ∷ timed_out ∷ received (none ∷ []) ∷ failed ∷ []

run-Grows_example : Grows stored (Mempool.run pooled events world).1.database
run-Grows_example = run-Grows pooled events world

abbrev filled : World
filled = (backfill env 3 10 world).1

fills : backfill env 3 10 world ≡ (ok 2, filled)
unfolding backfill backfill_loop query open_heights keep contains sort_heights insert_height
    fill_batch transaction execute fill upsert_soft_facts_for_block attempt put_soft_facts
    clear_pending txs_at total_fee sum_inputs update upsert
fills = refl

backfill-Fills_example : Fills env (backfill env 3 10 world)
backfill-Fills_example = backfill-Fills env 3 10 world (omega arith) (omega arith)
