-- ===== src/Api/Models.antt =====
-- api/src/models.rs: what the API shows of the tables.
use block_ex.Prelude.{ℕ, Bool, Option, List, String}
use block_ex.Prelude.Int.{ℤ}
use block_ex.Db.{Ratio}

pub record BlockView : Type 0 where
  pub height : ℤ
  pub hash : Option String
  pub ts : Option ℤ
  pub size_bytes : ℕ
  pub major_version : ℕ
  pub minor_version : ℕ
  pub tx_count : ℕ
  pub reward_nanos : ℤ

pub record TxView : Type 0 where
  pub hash : Option String
  pub block_height : Option ℤ
  pub ts : Option ℤ
  pub in_mempool : Bool
  pub fee_nanos : Option ℤ
  pub size_bytes : ℕ
  pub version : ℕ
  pub unlock_time : ℤ
  pub extra_json : Option String
  pub rct_type : ℤ
  pub proof_type : Option String
  pub bp_plus : Bool
  pub num_inputs : ℕ
  pub num_outputs : ℕ

pub record RingView : Type 0 where
  pub tx_hash : Option String
  pub input_idx : ℤ
  pub ring_index : ℤ
  pub global_index : Option ℤ

pub record RingMemberView : Type 0 where
  pub ring_index : ℤ
  pub global_index : Option ℤ

pub record RingSetView : Type 0 where
  pub input_idx : ℤ
  pub members : List RingMemberView

pub record KeyImageView : Type 0 where
  pub key_image : Option String
  pub spending_tx : Option String
  pub block_height : Option ℤ

pub record MempoolView : Type 0 where
  pub hash : Option String
  pub first_seen : Option ℤ
  pub last_seen : Option ℤ
  pub fee_rate : Option Ratio
  pub relayed_by : Option String

-- The value of a search result is the text or the number that was found.
pub data Found : Type 0 where
  text : String → Found
  number : ℤ → Found

pub record SearchResult : Type 0 where
  pub kind : String
  pub value : Found

pub record InputView : Type 0 where
  pub idx : ℤ
  pub key_image : String
  pub ring_size : ℤ
  pub pseudo_out : Option String

pub record OutputView : Type 0 where
  pub idx_in_tx : ℤ
  pub global_index : Option ℤ
  pub amount : Option ℤ
  pub commitment : String
  pub stealth_public_key : String
  pub spent_by_key_image : Option String
  pub spent_in_tx : Option String

pub record TxDetailView : Type 0 where
  pub tx : TxView
  pub inputs : List InputView
  pub outputs : List OutputView

-- The data that the handlers serialize.
pub data Body : Type 0 where
  healthy : Body
  error : String → Body
  blocks : List BlockView → Body
  block : BlockView → Body
  tx : TxDetailView → Body
  mempool : List MempoolView → Body
  rings : List RingSetView → Body
  key_image : KeyImageView → Body
  search : SearchResult → Body
