-- ===== src/Codec/Extra.antt =====
-- ingestor/src/codec.rs, `parse_tx_extra`: the tags of a transaction's `extra` field.
-- The loop's index is kept as the bytes that are still to be read.
pub mod Layout
pub mod Extent
use block_ex.Prelude.{
  ℕ, zero, suc, ◌/◌, List, [], ◌∷◌, ◌++◌, String, Bytes, length, take, drop, ltb, ◌==◌,
  if◌then◌else◌,
}
use block_ex.Result.{Result, ok, running, ok_or, ◌>>=◌, hex_decode}
use block_ex.External.{Hex}

pub data TxExtraTag : Type 0 where
  pub_key : String → TxExtraTag
  nonce : Bytes → TxExtraTag
  additional_pub_keys : ℕ → TxExtraTag
  unknown : ℕ → ℕ → TxExtraTag

-- One round of the loop leaves it, or pushes tags and goes on with the bytes behind them.
pub data Step : Type 0 where
  break : Step
  next : List TxExtraTag → Bytes → Step

-- A length byte and as many bytes of content. The tag is made from both.
pub sized : (ℕ → Bytes → TxExtraTag) → Bytes → Step
sized tag [] = break
sized tag (len ∷ rest) =
    if ltb (length rest) len then break else next (tag len (take len rest) ∷ []) (drop len rest)

-- The last arm of the match, where a missing length byte is a tag of length 0.
pub sized_or_end : ℕ → Bytes → Step
sized_or_end other [] = next (unknown other 0 ∷ []) []
sized_or_end other (len ∷ rest) = sized (λ n _. unknown other n) (len ∷ rest)

module _ (hex : Hex) where
  pub step : ℕ → Bytes → Step
  unfolding sized sized_or_end
  step tag rest =
      if tag == 0
      then next [] rest
      else if tag == 1
      then if ltb (length rest) 32
        then break
        else next (pub_key (hex.encode (take 32 rest)) ∷ []) (drop 32 rest)
      else if tag == 2
      then sized (λ _ content. nonce content) rest
      else if tag == 4
      then sized (λ len _. additional_pub_keys (len / 32)) rest
      else sized_or_end tag rest

  pub parse_loop : ℕ → Bytes → List TxExtraTag → Result (List TxExtraTag)
  parse_loop zero bytes tags = running
  parse_loop (suc fuel) [] tags = ok tags
  parse_loop (suc fuel) (tag ∷ rest) tags = elim (step tag rest) [
    | break ↦ ok tags
    | next pushed rest' ↦ parse_loop fuel rest' (tags ++ pushed)
  ]

  -- Each round reads a byte at least, so that a round more than there are bytes is fuel enough.
  unfoldable pub parse_tx_extra : String → Result (List TxExtraTag)
  unfolding parse_loop step
  parse_tx_extra hex_str = do
    bytes ← ok_or hex_decode (hex.decode hex_str)
    parse_loop (suc (length bytes)) bytes []
