-- ===== src/Tests/Drain.antt =====
-- The theorems on runs that come to an end: one height, from the scheduler to the database, and a
-- schedule with a limit.
use block_ex.Prelude.{◌≡◌, refl, some, [], ◌∷◌, arith}
use block_ex.Prelude.Int.{pos, ◌+ℤ◌, ◌-ℤ◌}
use block_ex.Prelude.Words.{i64_try_from, i32_try_from, u64_try_from, as_i64}
use block_ex.Prelude.{keep, find, contains, bytes_eq}
use mathlib.Core.List.{zip}
use block_ex.Result.{ok}
use block_ex.Pipeline.{make_channels}
use block_ex.World.{World, query, execute, attempt, transaction}
use block_ex.Store.{hash_at, block_hash_at}
use block_ex.Header.{
  fetch, take_buffered, skip_below, pop_at, from_buffer, fill_batch, after_fill, from_batch,
}
use block_ex.Sched.{next_msg, wait_for_block, fetch_chain_tip, after_poll, finalized_at}
use block_ex.Block.{
  process_job, process_height, process_header, check_prev, check_stored, fetch_block_json,
  extract_tx_hashes, texts_of,
}
use block_ex.Txs.{process_block, fetch_transactions, start_chunk, pair_up}
use block_ex.System.{RunArgs, Settings, settings, start_of}
use block_ex.System.Tasks.{
  polling, holding, finished, idle, busy, full, ended, success, State, initial,
}
use block_ex.System.Turns.{
  SchedStep, poll, send_sched, close_sched, BlockStep, take_sched, make_block, send_block,
  close_block, TxStep, take_block, make_tx, send_tx, close_tx, PersistStep, persist, close_persist,
  by_sched, by_block, by_tx, by_persist, Reach, here, turn,
}
use block_ex.System.Outcome.{run_result}
use block_ex.System.Complete.{IsDone, run_result-IsDone}
use block_ex.Limits.{eff_concurrency}
use block_ex.Store.SoftFacts.{upsert_soft_facts_for_block, put_soft_facts}
use block_ex.Checkpoint
use block_ex.Persist.{
  tx_row, block_row, insert_txs, soft_facts_step, write_rest, write_block, pending_step, forget,
  after_commit, persist_block,
}
use block_ex.Store.{
  add_block, add_tx, put_tip, drop_mempool, insert_block, insert_tx, record_tip,
  update_block_confirmations_tx, refresh_confirmations, with_decoded, evict_mempool_on_inclusion,
}
use block_ex.Fetch.{fetch_txs_adaptive, fetch_loop}
use block_ex.Tests.Sample.{env, json, decoders, world}
use block_ex.Sched
use block_ex.Sched.Progress.{Reports, IsComplete, run-IsComplete}
use block_ex.Tests.Run.{
  answers, args, caps, cfg, job, ranges, ranges_after, fetched, completed, prepared, prepares,
}

abbrev one_args : RunArgs
one_args = record args { ingest_concurrency = 1; start_height = some 6; limit = some 1 }

abbrev one : Settings
one = record cfg {
  pipeline = record { sched_buffer = 512; block_workers = 1; tx_workers = 1 };
  concurrency = 1;
  scheduler = record { start_height = some (pos 6); limit = some 1; finality_window = 5 };
}

configures : settings one_args caps ≡ ok one
unfolding settings start_of i64_try_from eff_concurrency
configures = refl

abbrev start : State
start = initial one (pos 6) world

abbrev holds : State
holds = record start { scheduler = holding (job (pos 6)); world = record world { calls = 1 } }

polls : SchedStep env json decoders one start holds
unfolding next_msg wait_for_block fetch_chain_tip after_poll finalized_at u64_try_from i64_try_from
polls = poll 1 (job (pos 6)) (record world { calls = 1 }) refl refl refl refl

abbrev scheduled : State
scheduled = record holds {
  next_height = pos 7;
  processed = 1;
  scheduler = polling;
  sched = job (pos 6) ∷ [];
}

schedules : SchedStep env json decoders one holds scheduled
unfolding ◌+ℤ◌ make_channels
schedules = send_sched (job (pos 6)) refl (omega arith) refl

abbrev closed : State
closed = record scheduled { scheduler = finished success }

closes : SchedStep env json decoders one scheduled closed
closes = close_sched refl refl refl

abbrev taken : State
taken = record closed { sched = []; block_workers = busy ranges (job (pos 6)) ∷ [] }

takes : BlockStep env json decoders one closed taken
takes = take_sched [] [] ranges (job (pos 6)) [] refl refl refl

fetches :
    process_job env json 1 5 (job (pos 6)) ranges (record world { calls = 1 })
    ≡ (ok fetched, ranges_after, record world { calls = 3; statements = 1 })
unfolding process_job process_height u64_try_from fetch take_buffered skip_below pop_at from_buffer
    fill_batch after_fill from_batch process_header check_prev block_hash_at query hash_at find ◌-ℤ◌
    check_stored as_i64 fetch_block_json extract_tx_hashes texts_of i64_try_from keep
fetches = refl

abbrev made : State
made = record taken {
  block_workers = full ranges_after fetched ∷ [];
  world = record world { calls = 3; statements = 1 };
}

makes : BlockStep env json decoders one taken made
makes =
    make_block [] [] ranges ranges_after (job (pos 6)) 1 fetched
      (record world { calls = 3; statements = 1 }) refl fetches refl

abbrev sent : State
sent = record made { block_workers = idle ranges_after ∷ []; blocks = fetched ∷ [] }

sends : BlockStep env json decoders one made sent
unfolding make_channels
sends = send_block [] [] ranges_after fetched refl (omega arith) refl

abbrev blocks_closed : State
blocks_closed = record sent { block_workers = ended success ∷ [] }

closes_blocks : BlockStep env json decoders one sent blocks_closed
closes_blocks = close_block [] [] ranges_after success refl refl refl refl

abbrev passed : State
passed = record blocks_closed { blocks = []; tx_workers = busy tt fetched ∷ [] }

passes : TxStep env json decoders one blocks_closed passed
passes = take_block [] [] fetched [] refl refl refl

completes :
    process_block env 3 1 fetched (record world { calls = 3; statements = 1 })
    ≡ (ok completed, record world { calls = 4; statements = 1 })
unfolding process_block fetch_transactions start_chunk pair_up zip fetch_txs_adaptive fetch_loop
completes = refl

abbrev filled : State
filled = record passed {
  tx_workers = full tt completed ∷ [];
  world = record world { calls = 4; statements = 1 };
}

fills : TxStep env json decoders one passed filled
fills =
    make_tx [] [] fetched 3 completed (record world { calls = 4; statements = 1 }) refl completes
      refl

abbrev ready : State
ready = record filled { tx_workers = idle tt ∷ []; txs = completed ∷ [] }

readies : TxStep env json decoders one filled ready
unfolding make_channels
readies = send_tx [] [] completed refl refl (omega arith) refl

abbrev txs_closed : State
txs_closed = record ready { tx_workers = ended success ∷ [] }

closes_txs : TxStep env json decoders one ready txs_closed
closes_txs = close_tx [] [] refl refl (tt, tt) refl

abbrev written : World
written = (persist_block env one.persister completed prepared ready.world).1

writes : persist_block env one.persister completed prepared ready.world ≡ (ok tt, written)
unfolding persist_block transaction execute attempt write_block block_row i64_try_from i32_try_from
    insert_block insert_txs insert_tx write_rest evict_mempool_on_inclusion with_decoded record_tip
    soft_facts_step update_block_confirmations_tx after_commit pending_step forget Checkpoint.set
    refresh_confirmations upsert_soft_facts_for_block query put_soft_facts keep put_tip drop_mempool
    add_tx contains add_block tx_row bytes_eq
writes = refl

abbrev last : State
last = record txs_closed { txs = []; persisted = pos 6 ∷ []; world = written }

persists : PersistStep env json decoders one txs_closed last
persists = persist completed [] prepared written refl refl prepares writes refl

abbrev done : State
done = record last { persister = some success }

closes_persister : PersistStep env json decoders one last done
closes_persister = close_persist refl refl (tt, tt) refl

half_way : Reach env json decoders one (pos 6) world blocks_closed
half_way =
    turn
      (turn
        (turn
          (turn (turn (turn (turn here (by_sched polls)) (by_sched schedules)) (by_sched closes))
            (by_block takes))
          (by_block makes))
        (by_block sends))
      (by_block closes_blocks)

finishes : Reach env json decoders one (pos 6) world done
finishes =
    turn
      (turn
        (turn (turn (turn (turn half_way (by_tx passes)) (by_tx fills)) (by_tx readies))
          (by_tx closes_txs))
        (by_persist persists))
      (by_persist closes_persister)

returns : run_result done ≡ some success
unfolding run_result
returns = refl

run_result-IsDone_example : IsDone one_args (pos 6) done
run_result-IsDone_example =
    run_result-IsDone env json decoders answers one_args caps one (pos 6) world configures finishes
      returns

-- The daemon has ten blocks.
reports : Reports env 9
reports n = (record { count = 10; status = "OK" }, refl, omega arith, omega arith)

abbrev limited : Sched.Config
limited = record { start_height = some (pos 3); limit = some 4; finality_window = 5 }

run-IsComplete_example : IsComplete 4 (Sched.run env limited 9 2 8 world)
run-IsComplete_example =
    run-IsComplete env limited 9 reports 9 1 8 3 4 world refl refl (omega arith) (omega arith)
      (omega arith)
