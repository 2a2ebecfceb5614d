-- ===== src/Tests/System.antt =====
-- The theorems on the tasks together at a run: two heights, the second of which overtakes the first.
use block_ex.Prelude.{◌≡◌, refl, none, [], ◌∷◌, arith, ◌≤◌, ◌+◌, ◌*◌, max}
use block_ex.Prelude.Int.{pos, ◌+ℤ◌, ◌-ℤ◌, ◌≤ℤ◌, int_laws}
use block_ex.Prelude.Words.{i64_try_from, i32_try_from, u64_try_from, as_i64}
use block_ex.Prelude.{keep, find, contains, bytes_eq}
use mathlib.Core.List.{zip}
use block_ex.Result.{ok}
use block_ex.Pipeline.{make_channels}
use block_ex.World.{World, query, execute, attempt, transaction}
use block_ex.Store.{hash_at, block_hash_at}
use block_ex.Limits.{eff_concurrency}
use block_ex.Header.{
  fetch, take_buffered, skip_below, pop_at, from_buffer, fill_batch, after_fill, from_batch,
}
use block_ex.Sched.{next_msg, wait_for_block, fetch_chain_tip, after_poll, finalized_at}
use block_ex.Block.{
  process_job, process_height, process_header, check_prev, check_stored, fetch_block_json,
  extract_tx_hashes, texts_of,
}
use block_ex.Txs.{process_block, fetch_transactions, start_chunk, pair_up}
use block_ex.System.{settings, start_of}
use block_ex.System.Tasks.{polling, holding, idle, busy, full, State, initial}
use block_ex.System.Turns.{
  SchedStep, poll, send_sched, BlockStep, take_sched, make_block, send_block, TxStep, take_block,
  make_tx, send_tx, by_sched, by_block, by_tx, Reach, here, turn,
}
use block_ex.System.Accounting.{IsAccounted, Reach-IsAccounted}
use block_ex.System.Bounds.{in_flight, in_flight_bounds}
use block_ex.Persist.Prepare.{Decoders}
use block_ex.System.Restart.{restart-skips}
use block_ex.Checkpoint
use block_ex.Store.SoftFacts.{upsert_soft_facts_for_block, put_soft_facts}
use block_ex.Persist.{
  tx_row, block_row, insert_txs, soft_facts_step, write_rest, write_block, pending_step, forget,
  after_commit, persist_block,
}
use block_ex.Store.{
  add_block, add_tx, put_tip, drop_mempool, insert_block, insert_tx, record_tip,
  update_block_confirmations_tx, refresh_confirmations, with_decoded, evict_mempool_on_inclusion,
}
use block_ex.Sched.{first_height}
use block_ex.Prelude.Counts.{count}
use block_ex.Fetch.{fetch_txs_adaptive, fetch_loop}
use block_ex.Tests.Run.{
  answers, args, caps, cfg, job, ranges, ranges_after, fetched, completed, prepared,
}
use block_ex.Tests.Sample.{env, json, decoders, world}

pub configures : settings args caps ≡ ok cfg
unfolding settings start_of i64_try_from eff_concurrency
configures = refl

abbrev start : State
start = initial cfg (pos 5) world

abbrev holds : State
holds = record start { scheduler = holding (job (pos 5)); world = record world { calls = 1 } }

abbrev scheduled : State
scheduled = record holds {
  next_height = pos 6;
  processed = 1;
  scheduler = polling;
  sched = job (pos 5) ∷ [];
}

abbrev holds_two : State
holds_two = record scheduled {
  scheduler = holding (job (pos 6));
  world = record world { calls = 2 };
}

abbrev scheduled_two : State
scheduled_two = record holds_two {
  next_height = pos 7;
  processed = 2;
  scheduler = polling;
  sched = job (pos 5) ∷ job (pos 6) ∷ [];
}

abbrev taken : State
taken = record scheduled_two {
  sched = job (pos 6) ∷ [];
  block_workers = busy ranges (job (pos 5)) ∷ idle ranges ∷ [];
}

abbrev taken_two : State
taken_two = record taken {
  sched = [];
  block_workers = busy ranges (job (pos 5)) ∷ busy ranges (job (pos 6)) ∷ [];
}

fetches :
    process_job env json 1 5 (job (pos 6)) ranges (record world { calls = 2 })
    ≡ (ok fetched, ranges_after, record world { calls = 4; statements = 1 })
unfolding process_job process_height u64_try_from fetch take_buffered skip_below pop_at from_buffer
    fill_batch after_fill from_batch process_header check_prev block_hash_at query hash_at find ◌-ℤ◌
    check_stored as_i64 fetch_block_json extract_tx_hashes texts_of i64_try_from keep
fetches = refl

abbrev made : State
made = record taken_two {
  block_workers = busy ranges (job (pos 5)) ∷ full ranges_after fetched ∷ [];
  world = record world { calls = 4; statements = 1 };
}

abbrev sent : State
sent = record made {
  block_workers = busy ranges (job (pos 5)) ∷ idle ranges_after ∷ [];
  blocks = fetched ∷ [];
}

abbrev passed : State
passed = record sent { blocks = []; tx_workers = busy tt fetched ∷ idle tt ∷ [] }

completes :
    process_block env 3 2 fetched (record world { calls = 4; statements = 1 })
    ≡ (ok completed, record world { calls = 5; statements = 1 })
unfolding process_block fetch_transactions start_chunk pair_up zip fetch_txs_adaptive fetch_loop
completes = refl

abbrev full_tx : State
full_tx = record passed {
  tx_workers = full tt completed ∷ idle tt ∷ [];
  world = record world { calls = 5; statements = 1 };
}

abbrev pub ready : State
ready = record full_tx { tx_workers = idle tt ∷ idle tt ∷ []; txs = completed ∷ [] }

-- The steps up to there do not depend on the decoders.
module _ (dec : Decoders json) where
  polls : SchedStep env json dec cfg start holds
  unfolding next_msg wait_for_block fetch_chain_tip after_poll finalized_at u64_try_from
      i64_try_from
  polls = poll 1 (job (pos 5)) (record world { calls = 1 }) refl refl refl refl

  schedules : SchedStep env json dec cfg holds scheduled
  unfolding ◌+ℤ◌ make_channels
  schedules = send_sched (job (pos 5)) refl (omega arith) refl

  polls_two : SchedStep env json dec cfg scheduled holds_two
  unfolding next_msg wait_for_block fetch_chain_tip after_poll finalized_at u64_try_from
      i64_try_from
  polls_two = poll 1 (job (pos 6)) (record world { calls = 2 }) refl refl refl refl

  schedules_two : SchedStep env json dec cfg holds_two scheduled_two
  unfolding ◌+ℤ◌ make_channels
  schedules_two = send_sched (job (pos 6)) refl (omega arith) refl

  takes : BlockStep env json dec cfg scheduled_two taken
  takes = take_sched [] (idle ranges ∷ []) ranges (job (pos 5)) (job (pos 6) ∷ []) refl refl refl

  takes_two : BlockStep env json dec cfg taken taken_two
  takes_two = take_sched (busy ranges (job (pos 5)) ∷ []) [] ranges (job (pos 6)) [] refl refl refl

  makes : BlockStep env json dec cfg taken_two made
  makes =
      make_block (busy ranges (job (pos 5)) ∷ []) [] ranges ranges_after (job (pos 6)) 1 fetched
        (record world { calls = 4; statements = 1 }) refl fetches refl

  sends : BlockStep env json dec cfg made sent
  unfolding make_channels
  sends =
      send_block (busy ranges (job (pos 5)) ∷ []) [] ranges_after fetched refl (omega arith) refl

  passes : TxStep env json dec cfg sent passed
  passes = take_block [] (idle tt ∷ []) fetched [] refl refl refl

  fills : TxStep env json dec cfg passed full_tx
  fills =
      make_tx [] (idle tt ∷ []) fetched 3 completed (record world { calls = 5; statements = 1 })
        refl completes refl

  readies : TxStep env json dec cfg full_tx ready
  unfolding make_channels
  readies = send_tx [] (idle tt ∷ []) completed refl refl (omega arith) refl

  fetching : Reach env json dec cfg (pos 5) world taken_two
  fetching =
      turn
        (turn
          (turn (turn (turn (turn here (by_sched polls)) (by_sched schedules)) (by_sched polls_two))
            (by_sched schedules_two))
          (by_block takes))
        (by_block takes_two)

  -- The second height waits for the persister while a worker still has the first.
  pub overtakes : Reach env json dec cfg (pos 5) world ready
  overtakes =
      turn
        (turn (turn (turn (turn fetching (by_block makes)) (by_block sends)) (by_tx passes))
          (by_tx fills))
        (by_tx readies)

Reach-IsAccounted_example : IsAccounted (pos 5) ready
Reach-IsAccounted_example =
    Reach-IsAccounted env json decoders cfg answers (pos 5) world (overtakes decoders)

in_flight_bounds_example :
    in_flight ready ≤ 532 + 5 * max (eff_concurrency args.ingest_concurrency args.bootstrap) 1
in_flight_bounds_example =
    in_flight_bounds env json decoders args caps cfg (pos 5) world configures (overtakes decoders)

abbrev pub written : World
written = (persist_block env cfg.persister completed prepared ready.world).1

pub writes : persist_block env cfg.persister completed prepared ready.world ≡ (ok tt, written)
unfolding persist_block transaction execute attempt write_block block_row i64_try_from i32_try_from
    insert_block insert_txs insert_tx write_rest evict_mempool_on_inclusion with_decoded record_tip
    soft_facts_step update_block_confirmations_tx after_commit pending_step forget Checkpoint.set
    refresh_confirmations upsert_soft_facts_for_block query put_soft_facts keep put_tip drop_mempool
    add_tx contains add_block tx_row bytes_eq
writes = refl

restart-skips_example :
    ((first_height env (record (cfg.scheduler) { start_height = none }) written).0
      ≡ ok (pos 6 +ℤ pos 1))
    × (pos 5 +ℤ pos 1 ≤ℤ pos 6 +ℤ pos 1)
    × (count (pos 5) (pos 6 ∷ []) ≡ 0)
restart-skips_example =
    restart-skips env json decoders cfg answers (pos 5) world [] (idle ranges_after ∷ []) ranges
      (job (pos 5)) completed [] prepared (overtakes decoders) refl refl (omega int_laws) writes
      refl
