-- ===== src/Api/Keys.antt =====
-- api/src/routes.rs: the keys of the cache, and that no two of them are the same text.
use Prim.Native.Char.{code}
use Prim.Native.String.{count, ◌++◌ as ◌++ˢ◌, [] as nil, ◌∷◌ as ◌∷ˢ◌}
use text.Mathlib.TextLemmas.{
  length-nil, length-cons, nil-append, cons-append, head-eq_of_cons-eq, tail-eq_of_cons-eq,
  append_cancel_left,
}
use block_ex.Prelude.{
  ℕ, zero, suc, ◌<◌, ◌==◌, ◌≡◌, refl, sym, ap, ◌∙◌, ◌||◌, Bool, false, Option, none, some, String,
  arith, if◌then◌else◌,
}
use block_ex.Prelude.Int.{ℤ}
use mathlib.Core.Path.{subst}
use block_ex.Api.{Env}
use block_ex.Api.Routes.{blocks_key, block_key, tx_key, rings_key, key_image_key}

pub data Kind : Type 0 where
  block tx rings mempool key_image : Kind

-- What an entry of the cache is for.
pub data Key : Type 0 where
  page : ℤ → ℤ → Key
  named : Kind → String → Key

abbrev pub has_code : ℕ → String → Bool
has_code n nil = false
has_code n (c ∷ˢ s) = (code c == n) || has_code n s

-- Numbers are written without a colon, and differently.
pub record IsDecimal (show : ℤ → String) : Type 0 where
  pub no_colon : (h : ℤ) → has_code 58 (show h) ≡ false
  pub injective : (a b : ℤ) → show a ≡ show b → a ≡ b

-- The code at a position, or 0.
nth : ℕ → String → ℕ
nth i nil = 0
nth zero (c ∷ˢ s) = code c
nth (suc i) (c ∷ˢ s) = nth i s

nth-append : (i : ℕ) (p s : String) → i < count p → nth i (p ++ˢ s) ≡ nth i p
unfolding nth
nth-append i nil s h = absurd (omega (arith, length-nil))
nth-append zero (c ∷ˢ p) s h = ap (nth 0) (cons-append c p s)
nth-append (suc i) (c ∷ˢ p) s h =
    ap (nth (suc i)) (cons-append c p s) ∙ nth-append i p s (omega (arith, length-cons c p))

kind_at : ℕ → ℕ → Option Kind
kind_at a b =
    if a == 116
    then some tx
    else if a == 114
    then some rings
    else if a == 109
    then some mempool
    else if a == 107
    then some key_image
    else if b == 58
    then some block
    else none

-- The kind that a key was made for, read from its first and its sixth letter.
kind_of : String → Option Kind
kind_of s = kind_at (nth 0 s) (nth 5 s)

-- Up to a colon, a text without one is determined by the whole.
split_at_colon :
    (s t x y : String)
    → has_code 58 s ≡ false
    → has_code 58 t ≡ false
    → s ++ˢ (":" ++ˢ x) ≡ t ++ˢ (":" ++ˢ y)
    → (s ≡ t) × (x ≡ y)
split_at_colon nil nil x y p q e =
    (refl, append_cancel_left ":" x y (sym (nil-append (":" ++ˢ x)) ∙ e ∙ nil-append (":" ++ˢ y)))
split_at_colon nil (d ∷ˢ t) x y p q e = absurd (
    ground (
      arith,
      ap code (
          head-eq_of_cons-eq (
            sym (cons-append _ nil x)
            ∙ sym (nil-append (":" ++ˢ x))
            ∙ e
            ∙ cons-append d t (":" ++ˢ y))),
    ))
split_at_colon (c ∷ˢ s) nil x y p q e = absurd (
    ground (
      arith,
      ap code (
          head-eq_of_cons-eq
            (sym (cons-append c s (":" ++ˢ x)) ∙ e ∙ nil-append (":" ++ˢ y) ∙ cons-append _ nil y)),
    ))
split_at_colon (c ∷ˢ s) (d ∷ˢ t) x y p q e =
    let whole = sym (cons-append c s (":" ++ˢ x)) ∙ e ∙ cons-append d t (":" ++ˢ y) in
    let (same, rest) =
      split_at_colon s t x y (ground arith) (ground arith) (tail-eq_of_cons-eq whole) in
    (cc (head-eq_of_cons-eq whole, same), rest)

module _ (env : Env) where
  unfoldable pub key_text : Key → String
  key_text (page start_height limit) = blocks_key env start_height limit
  key_text (named block id) = block_key env id
  key_text (named tx hash) = tx_key env hash
  key_text (named rings hash) = rings_key env hash
  key_text (named mempool s) = "mempool:latest" ++ˢ s
  key_text (named key_image hex) = key_image_key env hex

  kind_of-key_text : (k : Kind) (s : String) → kind_of (key_text (named k s)) ≡ some k
  unfolding kind_of nth kind_at key_text block_key tx_key rings_key key_image_key
  kind_of-key_text block s =
      rw (nth-append 0 "block:" s (omega arith), nth-append 5 "block:" s (omega arith)) refl
  kind_of-key_text tx s = rw (nth-append 0 "tx:" s (omega arith)) refl
  kind_of-key_text rings s = rw (nth-append 0 "rings:" s (omega arith)) refl
  kind_of-key_text mempool s = rw (nth-append 0 "mempool:latest" s (omega arith)) refl
  kind_of-key_text key_image s = rw (nth-append 0 "ki:" s (omega arith)) refl

  kind_of-blocks_key : (a b : ℤ) → kind_of (blocks_key env a b) ≡ none
  unfolding kind_of nth kind_at blocks_key
  kind_of-blocks_key a b =
      let rest = env.show a ++ˢ (":" ++ˢ env.show b) in
      rw (nth-append 0 "blocks:" rest (omega arith), nth-append 5 "blocks:" rest (omega arith)) refl

  same_rest : (k : Kind) (s t : String) → key_text (named k s) ≡ key_text (named k t) → s ≡ t
  unfolding key_text block_key tx_key rings_key key_image_key
  same_rest block s t e = append_cancel_left "block:" s t e
  same_rest tx s t e = append_cancel_left "tx:" s t e
  same_rest rings s t e = append_cancel_left "rings:" s t e
  same_rest mempool s t e = append_cancel_left "mempool:latest" s t e
  same_rest key_image s t e = append_cancel_left "ki:" s t e

  pub key_text-injective : IsDecimal env.show → (j k : Key) → key_text j ≡ key_text k → j ≡ k
  unfolding key_text blocks_key
  key_text-injective decimal (page a b) (page c d) e =
      let (first, second) =
        split_at_colon (env.show a) (env.show c) (env.show b) (env.show d) (decimal.no_colon a)
          (decimal.no_colon c) (append_cancel_left "blocks:" _ _ e) in
      cc (decimal.injective a c first, decimal.injective b d second)
  key_text-injective decimal (page a b) (named k s) e =
      absurd (cc (kind_of-blocks_key a b, kind_of-key_text k s))
  key_text-injective decimal (named k s) (page a b) e =
      absurd (cc (kind_of-blocks_key a b, kind_of-key_text k s, ap kind_of e))
  key_text-injective decimal (named j s) (named k t) e =
      let same : j ≡ k = cc (kind_of-key_text j s, kind_of-key_text k t, ap kind_of e) in
      let rest : s ≡ t =
        same_rest k s t (subst (λ i. key_text (named i s) ≡ key_text (named k t)) same e) in
      cc (same, rest)
