-- ===== src/Tests/Turns.antt =====
-- The theorems on the tasks behind a persister that fails, and on the task that has a turn.
use block_ex.Prelude.{◌≡◌, refl, none, some, true, [], ◌∷◌, arith, ◌≤◌, ◌+◌, ◌*◌, max}
use block_ex.Prelude.Int.{pos, ◌-ℤ◌}
use block_ex.Prelude.Words.{i64_try_from, u64_try_from, as_i64}
use block_ex.Prelude.{keep, find}
use mathlib.Core.List.{zip}
use block_ex.Result.{ok, err, json_decode}
use block_ex.World.{query}
use block_ex.Store.{hash_at, block_hash_at}
use block_ex.Limits.{eff_concurrency}
use block_ex.Header.{
  fetch, take_buffered, skip_below, pop_at, from_buffer, fill_batch, after_fill, from_batch,
}
use block_ex.Sched.{next_msg, wait_for_block, fetch_chain_tip, after_poll, finalized_at}
use block_ex.Block.{
  process_job, process_height, process_header, check_prev, check_stored, fetch_block_json,
  extract_tx_hashes, texts_of,
}
use block_ex.System.Tasks.{holding, State, failure}
use block_ex.System.Turns.{
  SchedStep, PersistStep, fail_prepare, by_persist, poll, by_sched, here, turn,
}
use block_ex.System.Alive.{WorkEnds, CanStep}
use block_ex.System.Alive.Returns.{Reach-CanStep}
use block_ex.System.Outcome.{run_result}
use block_ex.System.Stall.{Waits, Steps-Waits}
use block_ex.Persist.Prepare.{Decoders, prepare_block, prepare_all, prepare_tx}
use block_ex.Persist.{persist_block}
use mathlib.Core.Path.{subst}
use block_ex.World.Rules.{HasEnded as IsOver}
use block_ex.Pipeline.{TxMsg}
use block_ex.Persist.Prepare.{PreparedTx}
use block_ex.System.Tasks.{Outcome}
use block_ex.Prelude.{◌⊎◌, List, sym}
use block_ex.Tests.Run.{prepares, args, caps, cfg, job, completed, prepared}
use block_ex.Tests.Sample.{env, json, decoders, world}
use block_ex.Tests.System.{configures, overtakes, ready, writes}

-- No transaction can be read.
abbrev broken : Decoders json
broken = record { parse_tx_json = λ text. none; parse_u64 = λ text. none }

abbrev stalled : State
stalled = record ready { txs = []; given_up = pos 6 ∷ []; persister = some (failure json_decode) }

fails : prepare_block env.hex json broken completed true ≡ err json_decode
unfolding prepare_block prepare_all prepare_tx zip
fails = refl

stalls : PersistStep env json broken cfg ready stalled
stalls = fail_prepare completed [] json_decode refl refl fails refl

abbrev goes_on : State
goes_on = record stalled {
  scheduler = holding (job (pos 7));
  world = record world { calls = 6; statements = 1 };
}

polls_on : SchedStep env json broken cfg stalled goes_on
unfolding next_msg wait_for_block fetch_chain_tip after_poll finalized_at u64_try_from i64_try_from
polls_on = poll 1 (job (pos 7)) (record world { calls = 6; statements = 1 }) refl refl refl refl

Steps-Waits_example :
    (goes_on.persisted ≡ stalled.persisted)
    × (goes_on.processed
        ≤ stalled.processed
          + 532
          + 5 * max (eff_concurrency args.ingest_concurrency args.bootstrap) 1)
    × Waits goes_on
Steps-Waits_example =
    Steps-Waits env json broken args caps cfg (pos 5) world json_decode configures refl
      (turn (overtakes broken) (by_persist stalls)) refl (turn here (by_sched polls_on))

-- The scheduler, a block worker and the persister have work, which each of them ends.
work_ends : WorkEnds env json decoders cfg ready
unfolding next_msg wait_for_block fetch_chain_tip after_poll finalized_at u64_try_from i64_try_from
    process_job process_height fetch take_buffered skip_below pop_at from_buffer fill_batch
    after_fill from_batch process_header check_prev block_hash_at query hash_at find ◌-ℤ◌
    check_stored as_i64 fetch_block_json extract_tx_hashes texts_of keep
work_ends = record {
  polls = λ at more. (1, tt);
  jobs = ((1, tt), (tt, tt));
  fetches = (tt, (tt, tt));
  prepares = λ x rest at.
      subst (λ y. IsOver (prepare_block env.hex json decoders y true)) (cc at)
        (subst IsOver (sym prepares) tt);
  writes = λ x rest p at e. rewritten x p (cc at) e;
}
  where
    rewritten :
        (x : TxMsg) (p : List PreparedTx)
        → completed ≡ x
        → prepare_block env.hex json decoders x true ≡ ok p
        → IsOver (persist_block env cfg.persister x p ready.world).0
    rewritten x p same e =
        subst (λ l. IsOver (persist_block env cfg.persister x l ready.world).0)
          (cc (prepares, same, e))
          (subst (λ y. IsOver (persist_block env cfg.persister y prepared ready.world).0) same
            (subst (λ r. IsOver r.0) (sym writes) tt))

Reach-CanStep_example :
    CanStep env json decoders cfg ready ⊎ ((r : Outcome) × (run_result ready ≡ some r))
unfolding eff_concurrency
Reach-CanStep_example =
    Reach-CanStep env json decoders args caps cfg (pos 5) world configures (omega arith)
      (overtakes decoders) ((tt, (tt, tt)), (tt, (tt, tt)), (λ e p. cc p)) work_ends
