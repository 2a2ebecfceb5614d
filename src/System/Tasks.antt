-- ===== src/System/Tasks.antt =====
-- bin/ingestor.rs, the function `run`: the tasks between their turns, and the channels between them.
use block_ex.Prelude.{ℕ, Option, none, List, [], replicate}
use block_ex.Prelude.Int.{ℤ}
use block_ex.Result.{Error}
use block_ex.Pipeline.{SchedMsg, BlockMsg, TxMsg}
use block_ex.World.{World}
use block_ex.Header
use block_ex.Header.{HeaderFetcher}
use block_ex.System.{Settings}

-- What a task that has ended gives to whoever waits for it.
pub data Outcome : Type 0 where
  success : Outcome
  failure : Error → Outcome

pub data Scheduler : Type 0 where
  polling : Scheduler
  holding : SchedMsg → Scheduler
  finished : Outcome → Scheduler

-- A worker, with what it keeps from one message to the next: it waits for a message, has one, has
-- made of it the message that it is to send, or has ended.
pub data Worker (Kept Job Made : Type 0) : Type 0 where
  idle : Kept → Worker Kept Job Made
  busy : Kept → Job → Worker Kept Job Made
  full : Kept → Made → Worker Kept Job Made
  ended : Outcome → Worker Kept Job Made

abbrev pub BlockWorker : Type 0
BlockWorker = Worker HeaderFetcher SchedMsg BlockMsg

abbrev pub TxWorker : Type 0
TxWorker = Worker (Unit {0}) BlockMsg TxMsg

-- The channels are `sched`, `blocks` and `txs`, the workers stand in the order in which they were
-- started, and `persister` has the outcome of the persister once it has ended. The heights that were
-- written or given up only record what has happened.
pub record State : Type 0 where
  pub next_height : ℤ
  pub processed : ℕ
  pub scheduler : Scheduler
  pub sched : List SchedMsg
  pub block_workers : List BlockWorker
  pub blocks : List BlockMsg
  pub tx_workers : List TxWorker
  pub txs : List TxMsg
  pub persister : Option Outcome
  pub persisted : List ℤ
  pub given_up : List ℤ
  pub world : World

abbrev pub initial : Settings → ℤ → World → State
initial cfg start w = record {
  next_height = start;
  processed = 0;
  scheduler = polling;
  sched = [];
  block_workers =
      replicate cfg.pipeline.block_workers (idle (Header.new cfg.caps cfg.header_batch));
  blocks = [];
  tx_workers = replicate cfg.pipeline.tx_workers (idle tt);
  txs = [];
  persister = none;
  persisted = [];
  given_up = [];
  world = w;
}

module _ {Kept Job Made : Type 0} where
  abbrev pub HasEnded : Worker Kept Job Made → Type 0
  HasEnded (ended r) = Unit
  HasEnded _ = ⊥
