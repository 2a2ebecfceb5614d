-- ===== src/Codec/Extra/Extent.antt =====
-- codec.rs, `parse_tx_extra`: the bytes that its tags take up.
use block_ex.Prelude.{
  ℕ, zero, suc, ◌+◌, ◌*◌, ◌≤◌, ◌<◌, ◌≡◌, refl, some, List, [], ◌∷◌, ◌++◌, String, Bytes, length,
  arith, length-take, length-drop,
}
use block_ex.Result.{ok}
use block_ex.External.{Hex}
use block_ex.Codec.Extra.{
  TxExtraTag, pub_key, nonce, additional_pub_keys, unknown, Step, break, next, step, parse_loop,
  parse_tx_extra,
}

-- The bytes that a tag takes up in the field, at least.
abbrev pub extent : TxExtraTag → ℕ
extent (pub_key _) = 33
extent (nonce content) = 2 + length content
extent (additional_pub_keys count) = 2 + 32 * count
extent (unknown _ len) = 1 + len

abbrev pub extents : List TxExtraTag → ℕ
extents [] = 0
extents (t ∷ ts) = extent t + extents ts

pub extents-append : (ts us : List TxExtraTag) → extents (ts ++ us) ≡ extents ts + extents us
extents-append [] us = omega arith
extents-append (t ∷ ts) us = omega (arith, extents-append ts us)

-- What a round leaves and what it pushes fit in the bytes that it was given.
abbrev Fits : ℕ → Step → Type 0
Fits n break = Unit
Fits n (next pushed rest) = (extents pushed + length rest ≤ n) × (length rest < n)

module _ (hex : Hex) where
  step-Fits : (tag : ℕ) (rest : Bytes) → Fits (suc (length rest)) (step hex tag rest)
  unfolding step
  step-Fits tag [] = ground arith
  step-Fits tag (len ∷ rest) =
      ground (arith, length-take len rest, length-drop len rest, length-drop 31 rest)

  parse_loop_total :
      (fuel : ℕ) (bytes : Bytes) (tags : List TxExtraTag)
      → length bytes < fuel
      → (out : List TxExtraTag) × (parse_loop hex fuel bytes tags ≡ ok out)
        × (extents out ≤ extents tags + length bytes)
  unfolding parse_loop
  parse_loop_total zero bytes tags h = elim h [ ]
  parse_loop_total (suc fuel) [] tags h = (tags, refl, omega arith)
  parse_loop_total (suc fuel) (tag ∷ rest) tags h =
      go (step hex tag rest) refl (step-Fits tag rest) (parse_loop_total fuel)
    where
      go :
          (s : Step)
          → step hex tag rest ≡ s
          → Fits (suc (length rest)) s
          → ((bytes : Bytes) (tags : List TxExtraTag)
              → length bytes < fuel
              → (out : List TxExtraTag) × (parse_loop hex fuel bytes tags ≡ ok out)
                × (extents out ≤ extents tags + length bytes))
          → (out : List TxExtraTag) × (parse_loop hex (suc fuel) (tag ∷ rest) tags ≡ ok out)
            × (extents out ≤ extents tags + length (tag ∷ rest))
      go break e fits ih = (tags, rw (e, parse_loop), omega arith)
      go (next pushed rest') e fits ih =
          let (out, runs, bound) = ih rest' (tags ++ pushed) (omega arith) in
          (out, rw (e, parse_loop) runs, omega (arith, bound, fits.0, extents-append tags pushed))

  -- On every text that decodes, the parser returns tags, and they fit in the decoded bytes.
  pub parse_tx_extra_total :
      (hex_str : String) (bytes : Bytes)
      → hex.decode hex_str ≡ some bytes
      → (tags : List TxExtraTag) × (parse_tx_extra hex hex_str ≡ ok tags)
        × (extents tags ≤ length bytes)
  unfolding parse_tx_extra
  parse_tx_extra_total hex_str bytes decoded =
      let (tags, runs, bound) = parse_loop_total (suc (length bytes)) bytes [] (omega arith) in
      (tags, rw decoded runs, omega (arith, bound))
