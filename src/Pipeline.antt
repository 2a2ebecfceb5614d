-- ===== src/Pipeline.antt =====
-- ingestor/src/pipeline.rs: the messages between the stages, without the time of their start, which
-- only the metrics read, and the sizes of the channels.
use block_ex.Prelude.{ℕ, ◌*◌, ◌%◌, ◌^◌, Option, List, String}
use block_ex.Prelude.Int.{ℤ}
use block_ex.Rpc.{BlockHeader}

pub record SchedMsg : Type 0 where
  pub height : ℤ
  pub tip_height : ℤ
  pub finalized_height : ℤ

pub record BlockMsg : Type 0 where
  pub height : ℤ
  pub hash : String
  pub tx_hashes : List String
  pub ts : ℤ
  pub tip_height : ℤ
  pub finalized_height : ℤ
  pub header : BlockHeader
  pub miner_tx_json : Option String
  pub miner_tx_hash : Option String

pub record TxMsg : Type 0 where
  pub height : ℤ
  pub block_hash : String
  pub tx_jsons : List String
  pub ts : ℤ
  pub tip_height : ℤ
  pub finalized_height : ℤ
  pub header : BlockHeader
  pub miner_tx_json : Option String
  pub miner_tx_hash : Option String
  pub ordered_tx_hashes : List String

pub record PipelineCfg : Type 0 where
  pub sched_buffer : ℕ
  pub block_workers : ℕ
  pub tx_workers : ℕ

-- How many messages each of the three channels holds.
pub record Channels : Type 0 where
  pub sched : ℕ
  pub block : ℕ
  pub tx : ℕ

unfoldable pub make_channels : PipelineCfg → Channels
make_channels cfg = record {
  sched = cfg.sched_buffer;
  block = cfg.block_workers * 4 % 2 ^ 64;
  tx = cfg.tx_workers * 4 % 2 ^ 64;
}
