-- ===== src/Db.antt =====
-- The tables (db/migrations), as lists of rows.
use block_ex.Prelude.{ℕ, Bool, Option, List, String, Bytes}
use block_ex.Prelude.Int.{ℤ}

-- public.blocks. A moment of time is its number of seconds since the epoch.
pub record BlockRow : Type 0 where
  pub height : ℤ
  pub hash : Bytes
  pub prev_hash : Bytes
  pub block_timestamp : ℤ
  pub size_bytes : ℕ
  pub major_version : ℕ
  pub minor_version : ℕ
  pub nonce : ℤ
  pub tx_count : ℕ
  pub reward_nanos : ℤ
  pub confirmations : ℤ
  pub is_final : Bool
  pub analytics_pending : Bool

-- public.txs. The column `extra` is the JSON object whose one field `extra` is this text.
pub record TxRow : Type 0 where
  pub tx_hash : Bytes
  pub block_height : Option ℤ
  pub block_timestamp : Option ℤ
  pub in_mempool : Bool
  pub fee_nanos : Option ℤ
  pub size_bytes : ℕ
  pub version : ℕ
  pub unlock_time : ℤ
  pub extra : String
  pub rct_type : ℤ
  pub proof_type : Option String
  pub bp_plus : Bool
  pub num_inputs : ℕ
  pub num_outputs : ℕ

-- public.tx_inputs
pub record InputRow : Type 0 where
  pub tx_hash : Bytes
  pub idx : ℤ
  pub key_image : Bytes
  pub ring_size : ℤ
  pub pseudo_out : Option Bytes

-- public.outputs. An amount is whole, as in the 64 bits that `insert_output` binds.
pub record OutputRow : Type 0 where
  pub output_id : ℤ
  pub global_index : Option ℤ
  pub tx_hash : Bytes
  pub idx_in_tx : ℤ
  pub commitment : Bytes
  pub amount : Option ℤ
  pub stealth_public_key : Bytes
  pub spent_by_key_image : Option Bytes
  pub spent_in_tx : Option Bytes

-- public.rings
pub record RingRow : Type 0 where
  pub tx_hash : Bytes
  pub input_idx : ℤ
  pub ring_index : ℤ
  pub referenced_output_id : ℤ

-- An exact quotient, which the database keeps rounded to a double.
pub record Ratio : Type 0 where
  pub num : ℤ
  pub den : ℕ

-- public.mempool_txs
pub record MempoolRow : Type 0 where
  pub tx_hash : Bytes
  pub first_seen : ℕ
  pub last_seen : ℕ
  pub fee_rate : Option Ratio
  pub relayed_by : Option String

-- public.chain_tips
pub record TipRow : Type 0 where
  pub height : ℤ
  pub hash : Bytes
  pub prev_hash : Bytes

-- public.soft_facts
pub record SoftFactsRow : Type 0 where
  pub block_height : ℤ
  pub block_timestamp : ℤ
  pub total_fee : ℤ
  pub avg_ring_size : Ratio
  pub median_fee_rate : Ratio
  pub bp_total_bytes : ℤ
  pub clsag_count : ℕ

-- The one row of ingestor_checkpoint.
pub record CheckpointRow : Type 0 where
  pub last_height : ℤ
  pub finalized_height : ℤ

pub record Db : Type 0 where
  pub blocks : List BlockRow
  pub txs : List TxRow
  pub tx_inputs : List InputRow
  pub outputs : List OutputRow
  pub rings : List RingRow
  pub mempool_txs : List MempoolRow
  pub chain_tips : List TipRow
  pub soft_facts : List SoftFactsRow
  pub ingestor_checkpoint : Option CheckpointRow
