-- ===== src/Codec/Extra/Layout.antt =====
-- The layout of the `extra` field, written down apart from the parser of codec.rs, and what the
-- parser makes of a laid out field, also where its last entry is cut off.
use block_ex.Prelude.{
  ℕ, zero, suc, ◌/◌, ◌≤◌, ◌<◌, ◌≡◌, ◌≢◌, ◌⊎◌, ◌==◌, if◌then◌else◌, refl, ◌∙◌, some, List, [], ◌∷◌,
  ◌++◌, String, Bytes, length, take, drop, arith, length-append, All,
}
use mathlib.Core.List.{append-nil, append_assoc}
use block_ex.Result.{ok}
use block_ex.External.{Hex}
use block_ex.Codec.Extra.{
  TxExtraTag, pub_key, nonce, additional_pub_keys, unknown, break, next, step, parse_loop,
  parse_tx_extra,
}

-- The entries of the field.
pub data Entry : Type 0 where
  padding : Entry
  key : Bytes → Entry
  extra_nonce : Bytes → Entry
  keys : Bytes → Entry
  other : ℕ → Bytes → Entry

-- The bytes of an entry: its tag, the length of its content where that varies, and the content.
abbrev pub layout : Entry → Bytes
layout padding = 0 ∷ []
layout (key content) = 1 ∷ content
layout (extra_nonce content) = 2 ∷ length content ∷ content
layout (keys content) = 4 ∷ length content ∷ content
layout (other tag content) = tag ∷ length content ∷ content

abbrev pub layouts : List Entry → Bytes
layouts [] = []
layouts (e ∷ es) = layout e ++ layouts es

-- A key has 32 bytes, and the tag of another entry is none of the named ones.
abbrev pub IsEntry : Entry → Type 0
IsEntry (key content) = length content ≡ 32
IsEntry (other tag content) = (tag ≢ 0) × (tag ≢ 1) × (tag ≢ 2) × (tag ≢ 4)
IsEntry _ = Unit

-- The start of an entry that the field ends within.
pub data IsCut : Bytes → Type 0 where
  nothing : IsCut []
  short_key : (tag : ℕ) (content : Bytes) → tag ≡ 1 → length content < 32 → IsCut (tag ∷ content)
  no_length : (tag : ℕ) → (tag ≡ 2) ⊎ (tag ≡ 4) → IsCut (tag ∷ [])
  short_content :
      (tag len : ℕ) (content : Bytes)
      → tag ≢ 0
      → tag ≢ 1
      → length content < len
      → IsCut (tag ∷ len ∷ content)

take_all {ℓ} : {A : Type ℓ} (xs ys : List A) → take (length xs) (xs ++ ys) ≡ xs
take_all [] ys = refl
take_all (x ∷ xs) ys = rw (take_all xs ys)

drop_all {ℓ} : {A : Type ℓ} (xs ys : List A) → drop (length xs) (xs ++ ys) ≡ ys
drop_all [] ys = refl
drop_all (x ∷ xs) ys = drop_all xs ys

module _ (hex : Hex) where
  -- What the parser reports for an entry.
  abbrev pub reading : Entry → List TxExtraTag
  reading padding = []
  reading (key content) = pub_key (hex.encode content) ∷ []
  reading (extra_nonce content) = nonce content ∷ []
  reading (keys content) = additional_pub_keys (length content / 32) ∷ []
  reading (other tag content) = unknown tag (length content) ∷ []

  abbrev pub readings : List Entry → List TxExtraTag
  readings [] = []
  readings (e ∷ es) = reading e ++ readings es

  step-key :
      (content more : Bytes)
      → length content ≡ 32
      → step hex 1 (content ++ more) ≡ next (pub_key (hex.encode content) ∷ []) more
  unfolding step
  step-key content more h =
      let t : take 32 (content ++ more) ≡ content = rw h at (take_all content more) in
      let d : drop 32 (content ++ more) ≡ more = rw h at (drop_all content more) in
      rw (t, d, length-append content more, h) (ground arith)

  step-sized :
      (tag : ℕ) (content more : Bytes)
      → tag ≢ 0
      → tag ≢ 1
      → step hex tag (length content ∷ content ++ more)
        ≡ next
            (if tag == 2
              then nonce content ∷ []
              else if tag == 4
              then additional_pub_keys (length content / 32) ∷ []
              else unknown tag (length content) ∷ [])
            more
  unfolding step
  step-sized tag content more h0 h1 =
      rw (take_all content more, drop_all content more, length-append content more) (ground arith)

  step-other :
      (tag : ℕ) (content more : Bytes)
      → IsEntry (other tag content)
      → step hex tag (length content ∷ content ++ more)
        ≡ next (unknown tag (length content) ∷ []) more
  step-other tag content more (h0, h1, h2, h4) = step-sized tag content more h0 h1 ∙ ground arith

  step-cut : (tag : ℕ) (rest : Bytes) → IsCut (tag ∷ rest) → step hex tag rest ≡ break
  unfolding step
  step-cut tag rest (short_key _ _ e h) = ground arith
  step-cut tag rest (no_length _ h) = ground arith
  step-cut tag rest (short_content _ len content h0 h1 h) = ground arith

  -- An entry is read in one round.
  parse_loop-layout :
      (e : Entry) (fuel : ℕ) (more : Bytes) (tags : List TxExtraTag)
      → IsEntry e
      → parse_loop hex (suc fuel) (layout e ++ more) tags
        ≡ parse_loop hex fuel more (tags ++ reading e)
  unfolding parse_loop
  parse_loop-layout padding fuel more tags v = unfold step in refl
  parse_loop-layout (key content) fuel more tags v = rw (step-key content more v, parse_loop)
  parse_loop-layout (extra_nonce content) fuel more tags v =
      rw (step-sized 2 content more (omega arith) (omega arith), parse_loop)
  parse_loop-layout (keys content) fuel more tags v =
      rw (step-sized 4 content more (omega arith) (omega arith), parse_loop)
  parse_loop-layout (other tag content) fuel more tags v =
      rw (step-other tag content more v, parse_loop)

  parse_loop-IsCut :
      (fuel : ℕ) (bytes : Bytes) (tags : List TxExtraTag)
      → IsCut bytes
      → parse_loop hex (suc fuel) bytes tags ≡ ok tags
  unfolding parse_loop
  parse_loop-IsCut fuel [] tags c = refl
  parse_loop-IsCut fuel (tag ∷ rest) tags c = rw (step-cut tag rest c, parse_loop)

  parse_loop-layouts :
      (es : List Entry) (tail : Bytes) (fuel : ℕ) (tags : List TxExtraTag)
      → All IsEntry es
      → IsCut tail
      → length es < fuel
      → parse_loop hex fuel (layouts es ++ tail) tags ≡ ok (tags ++ readings es)
  parse_loop-layouts es tail zero tags v c h = elim h [ ]
  parse_loop-layouts [] tail (suc fuel) tags v c h =
      parse_loop-IsCut fuel tail tags c ∙ rw append-nil
  parse_loop-layouts (e ∷ es) tail (suc fuel) tags v c h =
      rw (append_assoc (layout e) (layouts es) tail) (
        parse_loop-layout e fuel (layouts es ++ tail) tags v.0
        ∙ parse_loop-layouts es tail fuel (tags ++ reading e) v.1 c (omega arith)
        ∙ rw (append_assoc tags (reading e) (readings es)))

  length-layouts : (es : List Entry) → length es ≤ length (layouts es)
  length-layouts [] = omega arith
  length-layouts (padding ∷ es) = omega (arith, length-layouts es)
  length-layouts (key content ∷ es) =
      omega (arith, length-layouts es, length-append content (layouts es))
  length-layouts (extra_nonce content ∷ es) =
      omega (arith, length-layouts es, length-append content (layouts es))
  length-layouts (keys content ∷ es) =
      omega (arith, length-layouts es, length-append content (layouts es))
  length-layouts (other tag content ∷ es) =
      omega (arith, length-layouts es, length-append content (layouts es))

  -- Of a field that is a row of well-formed entries and the start of an entry that is cut off, the
  -- parser returns the tags of the whole entries, in order, and nothing for the cut one.
  pub parse_tx_extra-layouts :
      (hex_str : String) (es : List Entry) (tail : Bytes)
      → All IsEntry es
      → IsCut tail
      → hex.decode hex_str ≡ some (layouts es ++ tail)
      → parse_tx_extra hex hex_str ≡ ok (readings es)
  unfolding parse_tx_extra
  parse_tx_extra-layouts hex_str es tail v c decoded = rw decoded (
      parse_loop-layouts es tail (suc (length (layouts es ++ tail))) [] v c
        (omega (arith, length-layouts es, length-append (layouts es) tail)))
