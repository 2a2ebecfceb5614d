-- ===== src/System/Frames.antt =====
-- bin/ingestor.rs: what a turn of each task leaves alone.
use block_ex.Prelude.{◌≡◌, refl, List}
use block_ex.Prelude.Int.{ℤ}
use block_ex.Pipeline.{SchedMsg, BlockMsg, TxMsg}
use block_ex.World.{World}
use block_ex.System.Tasks.{BlockWorker, TxWorker, State}

-- What the block workers leave alone.
pub record BlockFrame (s t : State) : Type 0 where
  pub scheduler : t.scheduler ≡ s.scheduler
  pub processed : t.processed ≡ s.processed
  pub next_height : t.next_height ≡ s.next_height
  pub tx_workers : t.tx_workers ≡ s.tx_workers
  pub txs : t.txs ≡ s.txs
  pub persister : t.persister ≡ s.persister
  pub persisted : t.persisted ≡ s.persisted

-- What the transaction workers leave alone.
pub record TxFrame (s t : State) : Type 0 where
  pub scheduler : t.scheduler ≡ s.scheduler
  pub processed : t.processed ≡ s.processed
  pub next_height : t.next_height ≡ s.next_height
  pub sched : t.sched ≡ s.sched
  pub block_workers : t.block_workers ≡ s.block_workers
  pub persister : t.persister ≡ s.persister
  pub persisted : t.persisted ≡ s.persisted

-- What the persister leaves alone.
pub record PersistFrame (s t : State) : Type 0 where
  pub scheduler : t.scheduler ≡ s.scheduler
  pub processed : t.processed ≡ s.processed
  pub next_height : t.next_height ≡ s.next_height
  pub sched : t.sched ≡ s.sched
  pub block_workers : t.block_workers ≡ s.block_workers
  pub blocks : t.blocks ≡ s.blocks
  pub tx_workers : t.tx_workers ≡ s.tx_workers

pub block_frame :
    (s : State) (a : List SchedMsg) (ws : List BlockWorker) (b : List BlockMsg) (g : List ℤ)
    (w : World)
    → BlockFrame s (record s { sched = a; block_workers = ws; blocks = b; given_up = g; world = w })
block_frame s a ws b g w = record {
  scheduler = refl;
  processed = refl;
  next_height = refl;
  tx_workers = refl;
  txs = refl;
  persister = refl;
  persisted = refl;
}

pub tx_frame :
    (s : State) (a : List BlockMsg) (ws : List TxWorker) (b : List TxMsg) (g : List ℤ) (w : World)
    → TxFrame s (record s { blocks = a; tx_workers = ws; txs = b; given_up = g; world = w })
tx_frame s a ws b g w = record {
  scheduler = refl;
  processed = refl;
  next_height = refl;
  sched = refl;
  block_workers = refl;
  persister = refl;
  persisted = refl;
}
