-- ===== src/Tests/Chain.antt =====
-- The theorems on the chain at a run: reorganisations, headers, the schedule and the checks.
use block_ex.Prelude.{
  ◌≡◌, refl, true, false, none, some, [], ◌∷◌, length, find, keep, contains, update, upsert,
  bytes_eq,
}
use block_ex.Prelude.Int.{ℤ, pos, ◌-ℤ◌, ◌+ℤ◌, ◌≤ℤ◌}
use block_ex.Result.{Result, ok}
use block_ex.World.{World, query, execute, attempt, transaction}
use block_ex.World.Laws.{HasFailed}
use block_ex.World.Rules.{HasEnded}
use block_ex.Store.{
  hash_at, block_hash_at, requeue_mempool_from_block, tx_hashes_at, delete_blocks, delete_tips,
  requeue_rows, see_mempool, with_decoded,
}
use block_ex.Pipeline.{BlockMsg}
use block_ex.Block.{
  process_header, check_prev, check_stored, prev_bytes, fetch_block_json, extract_tx_hashes,
  texts_of,
}
use block_ex.Block.Chain.{Continues, IsPassedOn, process_header-ok}
use block_ex.Block.{process_job, process_height, reorg, window_i64}
use block_ex.Block.Job.{IsBlockOf, process_job-ok}
use block_ex.Header.{HeaderFetcher}
use block_ex.Pipeline.{SchedMsg}
use block_ex.Prelude.Words.{u64_try_from}
use block_ex.Block.Gap.{heal_reorg-check_prev}
use block_ex.Header.{
  new, fetch, take_buffered, skip_below, pop_at, from_buffer, fill_batch, after_fill, from_batch,
}
use block_ex.Header.Ranges.{AnswersHeight, fetch_all, fetch_all-range}
use block_ex.Sched
use block_ex.Sched.{sched_loop}
use block_ex.Sched.Heights.{IsSchedule, IsWithin, sched_loop-IsSchedule}
use block_ex.Prelude.Words.{as_u64, as_i64, i64_try_from}
use block_ex.Reorg.{
  heal_reorg, find_fork, requeue_range, unwind, round, db_hash_at, live_hash_at, compare_hashes,
}
use block_ex.Reorg.Fork.{IsFork}
use block_ex.Reorg.Heal.{Unwound, heal_reorg-Unwound}
use block_ex.Reorg.Outcome.{database-heal_reorg}
use block_ex.Reorg.Termination.{heal_reorg_total}
use block_ex.Tests.Sample.{env, world, stored, decode-encode, header_at, json, job}

-- The world after the healing at height 3.
abbrev healed : World
healed = (heal_reorg env (pos 3) (pos 10) world).1

heals : heal_reorg env (pos 3) (pos 10) world ≡ (ok tt, healed)
unfolding heal_reorg db_hash_at block_hash_at query hash_at find ◌-ℤ◌ ◌+ℤ◌ round live_hash_at as_u64
    compare_hashes bytes_eq transaction requeue_mempool_from_block tx_hashes_at keep contains update
    upsert find_fork requeue_range unwind delete_blocks delete_tips requeue_rows see_mempool
    with_decoded attempt execute
heals = refl

heal_reorg-Unwound_example :
    (f : ℤ) × IsFork env stored (pos 10) 0 (pos 3 -ℤ pos 1) f
    × Unwound env f (pos 3) stored healed.database
heal_reorg-Unwound_example = heal_reorg-Unwound env decode-encode (pos 3) (pos 10) world heals

heal_reorg_total_example : HasEnded (heal_reorg env (pos 3) (pos 10) world).0
heal_reorg_total_example = heal_reorg_total env (pos 3) (pos 10) world

-- A window of no blocks is exceeded at once.
exceeds : HasFailed (heal_reorg env (pos 3) (pos 0) world).0
unfolding heal_reorg db_hash_at block_hash_at query hash_at find ◌-ℤ◌ ◌+ℤ◌ round live_hash_at as_u64
    compare_hashes bytes_eq find_fork
exceeds = tt

database-heal_reorg_example : (heal_reorg env (pos 3) (pos 0) world).1.database ≡ stored
database-heal_reorg_example = database-heal_reorg env (pos 3) (pos 0) world exceeds

abbrev searched : World
searched = (find_fork env 12 (pos 10) (pos 2) 0 (2 ∷ []) world).1

finds : find_fork env 12 (pos 10) (pos 2) 0 (2 ∷ []) world ≡ (ok (pos 1), searched)
unfolding db_hash_at block_hash_at query hash_at find ◌-ℤ◌ ◌+ℤ◌ round live_hash_at as_u64
    compare_hashes bytes_eq find_fork
finds = refl

second_hash : hash_at (pos 2) stored ≡ some (2 ∷ [])
unfolding hash_at find
second_hash = refl

heal_reorg-check_prev_example :
    (f : ℤ) × IsFork env stored (pos 10) 0 (as_i64 3 -ℤ pos 1) f
    × (f +ℤ pos 2 ≤ℤ as_i64 3
        → (hash_at (as_i64 3 -ℤ pos 1) healed.database ≡ none)
          × ((check_prev env 10 (header_at 3) healed).0 ≡ ok tt))
unfolding as_i64
heal_reorg-check_prev_example =
    heal_reorg-check_prev env decode-encode 10 (pos 10) (header_at 3) world heals refl

-- The header of height 2 names the stored block 1.
abbrev checked : Result BlockMsg × World
checked = process_header env json 10 job (header_at 2) world

abbrev passed_on : BlockMsg
passed_on = record {
  height = pos 2;
  hash = "aaab";
  tx_hashes = "ab" ∷ [];
  ts = pos 102;
  tip_height = pos 9;
  finalized_height = pos 0;
  header = header_at 2;
  miner_tx_json = some "{}";
  miner_tx_hash = some "b";
}

passes : process_header env json 10 job (header_at 2) world ≡ (ok passed_on, checked.1)
unfolding process_header check_prev block_hash_at query hash_at find ◌-ℤ◌ check_stored as_i64
    bytes_eq prev_bytes fetch_block_json extract_tx_hashes texts_of i64_try_from keep
passes = refl

passes-checked :
    (checked.1.database ≡ stored)
    × Continues env (header_at 2) stored
    × IsPassedOn job (header_at 2) passed_on
passes-checked = process_header-ok env json 10 job (header_at 2) world passes

fetched_height :
    (fetch env 4 (new (record { headers_range = true; blocks_by_height_bin = false }) 2) world).0
    ≡ ok (header_at 4)
unfolding fetch take_buffered skip_below pop_at from_buffer fill_batch after_fill from_batch
fetched_height = refl

answers : AnswersHeight env
answers n h res e = cc e

fetch_all-range_example :
    fetch_all env
      (length (header_at 4 ∷ header_at 5 ∷ []))
      4
      (record { buffered = []; use_range = true; batch_size = 2 })
      world
    ≡ (
      ok (header_at 4 ∷ header_at 5 ∷ []),
      record { buffered = []; use_range = true; batch_size = 2 },
      record world { calls = 1 },
    )
fetch_all-range_example =
    fetch_all-range env 4 2 (header_at 4) (header_at 5 ∷ []) world (refl, (refl, tt)) refl

abbrev config : Sched.Config
config = record { start_height = some (pos 3); limit = some 4; finality_window = 5 }

sched_loop-IsSchedule_example :
    IsSchedule env config.finality_window (pos 3) (sched_loop env config 9 2 0 (pos 3) 8 world).1
    × IsWithin config.limit 0 (sched_loop env config 9 2 0 (pos 3) 8 world).1
sched_loop-IsSchedule_example = sched_loop-IsSchedule env config 9 2 (pos 3) 8 world

-- A job for height 3, whose header does not name the stored block 2: it heals, and tries again.
abbrev third_job : SchedMsg
third_job = record { height = pos 3; tip_height = pos 9; finalized_height = pos 0 }

abbrev ranges : HeaderFetcher
ranges = new (record { headers_range = true; blocks_by_height_bin = false }) 2

abbrev third_block : BlockMsg
third_block = record {
  height = pos 3;
  hash = "aaab";
  tx_hashes = "ab" ∷ [];
  ts = pos 103;
  tip_height = pos 9;
  finalized_height = pos 0;
  header = header_at 3;
  miner_tx_json = some "{}";
  miner_tx_hash = some "b";
}

abbrev retried : Result BlockMsg × HeaderFetcher × World
retried = process_job env json 2 10 third_job ranges world

retries : process_job env json 2 10 third_job ranges world ≡ (ok third_block, retried.1, retried.2)
unfolding process_job process_height u64_try_from fetch take_buffered skip_below pop_at from_buffer
    fill_batch after_fill from_batch process_header check_prev block_hash_at query hash_at find ◌-ℤ◌
    ◌+ℤ◌ check_stored as_i64 as_u64 bytes_eq prev_bytes reorg window_i64 heal_reorg db_hash_at round
    live_hash_at compare_hashes transaction requeue_mempool_from_block tx_hashes_at keep contains
    update upsert find_fork requeue_range unwind delete_blocks delete_tips requeue_rows see_mempool
    with_decoded attempt execute fetch_block_json extract_tx_hashes texts_of i64_try_from
retries = refl

process_job-ok_example : IsBlockOf env third_job third_block retried.2.database
process_job-ok_example = process_job-ok env json answers 2 10 third_job ranges world retries
