-- ===== src/Codec.antt =====
-- ingestor/src/codec.rs: the decoded transaction, its analysis and the `extra` field.
-- The tag parser has a module of its own, `Codec/Extra.antt`.
pub mod Extra
use Prim.Native.String.{len}
use mathlib.Core.Option
use block_ex.Prelude.{
  ℕ, ◌^◌, ◌-◌, Bool, true, false, Option, none, some, List, [], ◌∷◌, map, String, Bytes, length,
  ltb, if◌then◌else◌,
}
use block_ex.Result.{
  Result, ok, err, ok_or, ◌>>=◌, ◌>>◌, extra_non_integer, extra_out_of_range, extra_format,
}
use block_ex.External.{Hex, Json}
use block_ex.Codec.Extra.{TxExtraTag, parse_tx_extra}

pub record TxAnalysis : Type 0 where
  pub version : ℕ
  pub num_inputs : ℕ
  pub num_outputs : ℕ
  pub ring_sizes : List ℕ
  pub bp_plus : Bool
  pub bp_total_bytes : ℕ
  pub tx_extra_tags : List TxExtraTag

module _ (json : Json) where
  open json use {Value, to_string, get, as_array, as_str, as_u64, is_null}

  -- The decoder itself is what `derive(Deserialize)` generates.
  pub record TxJson : Type 0 where
    pub version : ℕ
    pub vin : List Value
    pub vout : List Value
    pub extra : String
    pub rct_signatures : Value
    pub rctsig_prunable : Value
    pub unlock_time : ℕ

module _ (hex : Hex) (json : Json) where
  open json use {Value, to_string, get, as_array, as_str, as_u64, is_null}

  -- The loop over the elements of an `extra` array.
  pub extra_bytes : List Value → Result Bytes
  extra_bytes [] = ok []
  extra_bytes (v ∷ arr) =
      let rest = extra_bytes arr in
      do
        b ← ok_or extra_non_integer (as_u64 v)
        if ltb 255 b then err extra_out_of_range else do bytes ← rest; ok (b ∷ bytes)

  -- The attribute of the field `extra`: text is kept, an array of bytes is printed in hexadecimal.
  unfoldable pub extra_as_hex : Value → Result String
  unfolding extra_bytes
  extra_as_hex value = elim (as_str value) [
    | some s ↦ ok s
    | none ↦ elim (as_array value) [
      | some arr ↦ do bytes ← extra_bytes arr; ok (hex.encode bytes)
      | none ↦ err extra_format
    ]
  ]

  -- The closure of `extract_ring_sizes`.
  unfoldable pub ring_size : Value → ℕ
  ring_size v =
      let offsets =
        Option.bind (Option.bind (get v "key") (λ k. get k "key_offsets")) (λ ko. as_array ko) in
      elim offsets [ some a ↦ length a | none ↦ 0 ]

  unfoldable pub extract_ring_sizes : List Value → List ℕ
  extract_ring_sizes vin = map ring_size vin

  unfoldable pub estimate_bp : Value → Bool × ℕ
  estimate_bp prunable = if is_null prunable then (true, 0) else elim (get prunable "bp") [
    | some arr ↦ (true, len (to_string arr))
    | none ↦ elim (get prunable "bp_plus") [
      | some arr ↦ (true, len (to_string arr))
      | none ↦ (true, 0)
    ]
  ]

  unfoldable pub analyze_tx : TxJson json → Result TxAnalysis
  unfolding extract_ring_sizes estimate_bp
  analyze_tx tx = do
    let bp = estimate_bp tx.rctsig_prunable
    tx_extra_tags ← parse_tx_extra hex tx.extra
    ok (record {
      version = tx.version;
      num_inputs = length tx.vin;
      num_outputs = length tx.vout;
      ring_sizes = extract_ring_sizes tx.vin;
      bp_plus = bp.0;
      bp_total_bytes = bp.1;
      tx_extra_tags = tx_extra_tags;
    })
