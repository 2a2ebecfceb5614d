-- ===== src/System/Outcome.antt =====
-- bin/ingestor.rs: what `run` waits for, and what it returns.
use block_ex.Prelude.{Option, none, some, List, [], ◌∷◌, map}
use block_ex.System.Tasks.{Outcome, success, failure, Scheduler, finished, Worker, ended, State}

module _ {Kept Job Made : Type 0} where
  abbrev pub outcome_of : Worker Kept Job Made → Option Outcome
  outcome_of (ended r) = some r
  outcome_of _ = none

abbrev pub sched_outcome : Scheduler → Option Outcome
sched_outcome (finished r) = some r
sched_outcome _ = none

-- `handle.await` for the one task, and then what follows. `none` is a task that has not ended, for
-- which the caller waits still.
unfoldable pub wait_for : Option Outcome → Option Outcome → Option Outcome
wait_for none rest = none
wait_for (some success) rest = rest
wait_for (some (failure e)) rest = some (failure e)

-- Waits for one worker after the other, and stops at the first that has failed.
unfoldable pub drain_handles : List (Option Outcome) → Option Outcome
unfolding wait_for
drain_handles [] = some success
drain_handles (handle ∷ handles) = wait_for handle (drain_handles handles)

-- What `run` returns behind its start, or `none` while it waits.
unfoldable pub run_result : State → Option Outcome
unfolding drain_handles
run_result s = wait_for (sched_outcome s.scheduler) (
    wait_for (drain_handles (map outcome_of s.block_workers))
      (wait_for (drain_handles (map outcome_of s.tx_workers)) s.persister))
