-- ===== src/Persist/Prepare.antt =====
-- ingestor/src/work_persist.rs, `prepare_tx` and `prepare_block`: the rows of a block's transactions.
pub mod Rows
use mathlib.Core.List.{zip}
use Prim.Native.String.{len}
use block_ex.Prelude.{
  ℕ, ◌-◌, ◌^◌, Bool, true, false, not, Option, none, some, List, [], ◌∷◌, ◌++◌, String, Bytes,
  length, if◌then◌else◌,
}
use block_ex.Prelude.Int.{ℤ, pos, negsuc}
use block_ex.Prelude.Words.{i64_try_from, i32_try_from}
use block_ex.Result.{Result, ok, ok_or, ◌>>=◌, hex_decode, json_decode, overflow, tx_hash_missing}
use block_ex.External.{Hex, Json}
use block_ex.Codec.{TxJson, analyze_tx}
use block_ex.Pipeline.{TxMsg}

pub record PreparedTx : Type 0 where
  pub hash : Bytes
  pub hash_hex : String
  pub fee : Option ℤ
  pub size_bytes : ℕ
  pub version : ℕ
  pub unlock_time : ℤ
  pub extra : String
  pub rct_type : ℤ
  pub proof_type : Option String
  pub bp_plus : Bool
  pub num_inputs : ℕ
  pub num_outputs : ℕ

-- `.unwrap_or(i32::MAX)`
abbrev pub or_i32_max : Option ℕ → ℕ
or_i32_max none = 2 ^ 31 - 1
or_i32_max (some n) = n

-- `i32::try_from(rct_type).unwrap_or_default()` of an i64.
unfoldable pub i32_or_zero : ℤ → ℤ
i32_or_zero (pos n) = elim (i32_try_from n) [ none ↦ pos 0 | some m ↦ pos m ]
i32_or_zero (negsuc n) = elim (i32_try_from n) [ none ↦ pos 0 | some m ↦ negsuc m ]

abbrev first {ℓ} : {A : Type ℓ} → Option A → Option A → Option A
first none b = b
first (some a) b = some a

-- `parse_tx_json`, generated from the fields of `TxJson`, and `str::parse::<u64>`.
pub record Decoders (json : Json) : Type 1 where
  pub parse_tx_json : String → Option (TxJson json)
  pub parse_u64 : String → Option ℕ

module _ (hex : Hex) (json : Json) (dec : Decoders json) where
  open json use {Value, from_str, get, as_str, as_u64, as_i64, is_null}

  -- The value of one key.
  unfoldable pub number_at : Value → String → Option ℕ
  number_at value key = elim (get value key) [
    | none ↦ none
    | some v ↦ elim (as_u64 v) [
      | some num ↦ some num
      | none ↦ elim (as_str v) [ some s ↦ dec.parse_u64 s | none ↦ none ]
    ]
  ]

  -- The first of the keys that has a number.
  unfoldable pub value_u64 : Value → List String → Option ℕ
  unfolding number_at
  value_u64 value [] = none
  value_u64 value (key ∷ keys) =
      let rest = value_u64 value keys in
      elim (number_at value key) [ some num ↦ some num | none ↦ rest ]

  unfoldable pub parse_fee : Value → Option ℤ
  parse_fee value = elim (get value "rct_signatures") [
    | none ↦ none
    | some rs ↦ elim (get rs "txnFee") [
      | none ↦ none
      | some fee ↦
          let read = elim (as_str fee) as (λ _. Option ℕ) [
            | some s ↦ dec.parse_u64 s
            | none ↦ as_u64 fee
          ] in
          elim read [ none ↦ none | some n ↦ i64_try_from n ]
    ]
  ]

  -- `tx_hash`, or else `hash`, if it is a text, or else the hash that came with the block.
  unfoldable pub hash_text : Value → Option String → Option String
  hash_text value fallback_hash = elim (first (get value "tx_hash") (get value "hash")) [
    | none ↦ fallback_hash
    | some v ↦ first (as_str v) fallback_hash
  ]

  unfoldable pub rct_type_of : Value → ℤ
  rct_type_of value = elim (get value "rct_signatures") [
    | none ↦ pos 0
    | some rs ↦ elim (get rs "type") [
      | none ↦ pos 0
      | some t ↦ elim (as_i64 t) [ none ↦ pos 0 | some n ↦ n ]
    ]
  ]

  -- The two ways to the counts and to `bp_plus`.
  unfoldable pub has_bp_plus : Value → Bool
  has_bp_plus prunable = elim (first (get prunable "bp_plus") (get prunable "bp")) [
    | none ↦ false
    | some v ↦ not (is_null v)
  ]

  unfoldable pub counts : TxJson json → Bool → Result (ℕ × ℕ × Bool)
  counts tx true = do
    analysis ← analyze_tx hex json tx
    ok (analysis.num_inputs, analysis.num_outputs, analysis.bp_plus)
  counts tx false = ok (length tx.vin, length tx.vout, has_bp_plus tx.rctsig_prunable)

  unfoldable pub prepare_tx : String → Option String → Bool → Result PreparedTx
  unfolding counts has_bp_plus rct_type_of hash_text parse_fee value_u64
  prepare_tx json_str fallback_hash do_analytics = do
    tx ← ok_or json_decode (dec.parse_tx_json json_str)
    value ← ok_or json_decode (from_str json_str)
    hash_str ← ok_or tx_hash_missing (hash_text value fallback_hash)
    hash ← ok_or hex_decode (hex.decode hash_str)
    let found = value_u64 value ("size" ∷ "blob_size" ∷ "weight" ∷ [])
    let size = elim found as (λ _. ℕ) [ none ↦ len json_str | some n ↦ n ]
    version ← ok_or overflow (i32_try_from tx.version)
    unlock_time ← ok_or overflow (i64_try_from tx.unlock_time)
    counted ← counts tx do_analytics
    num_inputs ← ok_or overflow (i32_try_from counted.0)
    num_outputs ← ok_or overflow (i32_try_from counted.1)
    ok (record {
      hash = hash;
      hash_hex = hash_str;
      fee = parse_fee value;
      size_bytes = or_i32_max (i32_try_from size);
      version = version;
      unlock_time = unlock_time;
      extra = tx.extra;
      rct_type = i32_or_zero (rct_type_of value);
      proof_type = if counted.2 then some "CLSAG" else none;
      bp_plus = counted.2;
      num_inputs = num_inputs;
      num_outputs = num_outputs;
    })

  -- The loop over the pairs of hashes and texts.
  unfoldable pub prepare_all : Bool → List (String × String) → Result (List PreparedTx)
  prepare_all do_analytics [] = ok []
  prepare_all do_analytics ((hash, text) ∷ pairs) =
      let more = prepare_all do_analytics pairs in
      do tx ← prepare_tx text (some hash) do_analytics; txs ← more; ok (tx ∷ txs)

  -- The miner's transaction, if the block has both its text and its hash.
  unfoldable pub prepare_miner : Bool → Option String → Option String → Result (List PreparedTx)
  prepare_miner do_analytics (some text) (some fallback_hash) = do
    tx ← prepare_tx text (some fallback_hash) do_analytics
    ok (tx ∷ [])
  prepare_miner do_analytics (some text) none = ok []
  prepare_miner do_analytics none hash = ok []

  unfoldable pub prepare_block : TxMsg → Bool → Result (List PreparedTx)
  unfolding prepare_all prepare_miner prepare_tx
  prepare_block msg do_analytics = do
    miner ← prepare_miner do_analytics msg.miner_tx_json msg.miner_tx_hash
    txs ← prepare_all do_analytics (zip msg.ordered_tx_hashes msg.tx_jsons)
    ok (miner ++ txs)
