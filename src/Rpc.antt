-- ===== src/Rpc.antt =====
-- ingestor/src/rpc.rs: the messages of the daemon, and the trait `MoneroRpc` as an interface.
use block_ex.Prelude.{ℕ, Bool, Option, List, String}

pub record Capabilities : Type 0 where
  pub headers_range : Bool
  pub blocks_by_height_bin : Bool

pub record BlockHeader : Type 0 where
  pub hash : String
  pub height : ℕ
  pub timestamp : ℕ
  pub prev_hash : String
  pub major_version : ℕ
  pub minor_version : ℕ
  pub nonce : ℕ
  pub reward : ℕ
  pub size : ℕ

pub record GetBlockHeaderByHeightResult : Type 0 where
  pub block_header : BlockHeader
  pub status : String

pub record GetBlockResult : Type 0 where
  pub block_header : BlockHeader
  pub json : Option String
  pub blob : Option String
  pub miner_tx_hash : Option String
  pub status : String

pub record GetTransactionsResult : Type 0 where
  pub txs_as_json : List String
  pub missed_tx : List String
  pub status : String

pub record GetBlockCountResult : Type 0 where
  pub count : ℕ
  pub status : String

-- The first argument of each call is the number of calls made before it, so that the daemon may
-- answer the same question differently later on. `none` is a call that fails.
pub record MoneroRpc : Type 0 where
  pub get_block_header_by_height : ℕ → ℕ → Option GetBlockHeaderByHeightResult
  pub get_block_headers_range : ℕ → ℕ → ℕ → Option (List BlockHeader)
  pub get_block : ℕ → String → Bool → Option GetBlockResult
  pub get_transactions : ℕ → List String → Option GetTransactionsResult
  pub get_block_count : ℕ → Option GetBlockCountResult
  pub get_transaction_pool_hashes : ℕ → Option (List String)
  pub probe_caps : ℕ → Capabilities
