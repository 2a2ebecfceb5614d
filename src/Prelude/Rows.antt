-- ===== src/Prelude/Rows.antt =====
-- Tables as lists of rows: the rows of which a test holds, and whether there is one.
use mathlib.Core.Logic.{◌⊎◌}
use mathlib.Core.Path.{◌≡◌, refl}
use mathlib.Core.Bool.{Bool, true, false, ◌&&◌, ◌||◌}
use mathlib.Core.Option.{Option, none, some}
use mathlib.Core.List.{List, [], ◌∷◌, ◌++◌, map}
use native.Mathlib.Omega.{arith}
use mathlib.Core.Logic.{inl, inr}
use block_ex.Prelude.Tests.{Bool-cases, if◌then◌else◌}
use block_ex.Prelude.Lists.{All}

module _ {ℓ} {A : Type ℓ} where
  -- `WHERE`
  unfoldable pub keep : (A → Bool) → List A → List A
  keep p [] = []
  keep p (x ∷ xs) = let rest = keep p xs in if p x then x ∷ rest else rest

  -- `fetch_optional` takes the first row.
  unfoldable pub find : (A → Bool) → List A → Option A
  find p [] = none
  find p (x ∷ xs) = let rest = find p xs in if p x then some x else rest

  unfoldable pub contains : (A → Bool) → List A → Bool
  contains p [] = false
  contains p (x ∷ xs) = p x || contains p xs

  -- `UPDATE … WHERE`
  unfoldable pub update : (A → Bool) → (A → A) → List A → List A
  update p f [] = []
  update p f (x ∷ xs) = (if p x then f x else x) ∷ update p f xs

  -- `INSERT … ON CONFLICT DO UPDATE`
  unfoldable pub upsert : (A → Bool) → (A → A) → A → List A → List A
  unfolding contains update
  upsert p f new xs = if contains p xs then update p f xs else xs ++ new ∷ []

module _ {ℓ} {A : Type ℓ} where
  pub contains-append :
      (p : A → Bool) (xs ys : List A) → contains p (xs ++ ys) ≡ (contains p xs || contains p ys)
  unfolding contains
  contains-append p [] ys = refl
  contains-append p (x ∷ xs) ys = ground (arith, contains-append p xs ys)

  -- An update that leaves what a test reads leaves the test.
  pub contains-update :
      (q p : A → Bool) (f : A → A) (xs : List A)
      → ((x : A) → q (f x) ≡ q x)
      → contains q (update p f xs) ≡ contains q xs
  unfolding contains update
  contains-update q p f [] h = refl
  contains-update q p f (x ∷ xs) h = ground (arith, contains-update q p f xs h, h x)

  pub contains-upsert_self :
      (p : A → Bool) (f : A → A) (new : A) (xs : List A)
      → ((x : A) → p (f x) ≡ p x)
      → p new ≡ true
      → contains p (upsert p f new xs) ≡ true
  unfolding upsert contains
  contains-upsert_self p f new xs h n =
      ground (arith, contains-update p p f xs h, contains-append p xs (new ∷ []))

  pub contains-upsert :
      (q p : A → Bool) (f : A → A) (new : A) (xs : List A)
      → ((x : A) → q (f x) ≡ q x)
      → contains q xs ≡ true
      → contains q (upsert p f new xs) ≡ true
  unfolding upsert
  contains-upsert q p f new xs h c =
      ground (arith, contains-update q p f xs h, contains-append q xs (new ∷ []))

  -- After an upsert a test holds of a row only where it did, or of the new row.
  pub contains-upsert_only :
      (q p : A → Bool) (f : A → A) (new : A) (xs : List A)
      → ((x : A) → q (f x) ≡ q x)
      → contains q (upsert p f new xs) ≡ true
      → (contains q xs ≡ true) ⊎ (q new ≡ true)
  unfolding upsert contains
  contains-upsert_only q p f new xs h c =
      ground (arith, contains-update q p f xs h, contains-append q xs (new ∷ []))

  pub find-keep_same :
      (p q : A → Bool) (xs : List A)
      → ((x : A) → p x ≡ true → q x ≡ true)
      → find p (keep q xs) ≡ find p xs
  unfolding find keep
  find-keep_same p q [] h = refl
  find-keep_same p q (x ∷ xs) h = ground (arith, find-keep_same p q xs h, h x)

  pub find-keep-none :
      (p q : A → Bool) (xs : List A)
      → ((x : A) → p x ≡ true → q x ≡ false)
      → find p (keep q xs) ≡ none
  unfolding find keep
  find-keep-none p q [] h = refl
  find-keep-none p q (x ∷ xs) h = ground (arith, find-keep-none p q xs h, h x)

  pub find-append_none :
      (p : A → Bool) (xs ys : List A) → find p xs ≡ none → find p (xs ++ ys) ≡ find p ys
  unfolding find
  find-append_none p [] ys h = refl
  find-append_none p (x ∷ xs) ys h = ground (arith, find-append_none p xs ys)

pub All-weaken {ℓ κ μ} :
    {A : Type ℓ} (P : A → Type κ) (Q : A → Type μ) (xs : List A)
    → ((x : A) → P x → Q x)
    → All P xs
    → All Q xs
All-weaken P Q [] f h = tt
All-weaken P Q (x ∷ xs) f h = (f x h.0, All-weaken P Q xs f h.1)

pub All-keep {ℓ κ} :
    {A : Type ℓ} (P : A → Type κ) (p : A → Bool) (xs : List A)
    → ((x : A) → p x ≡ true → P x)
    → All P (keep p xs)
unfolding keep
All-keep P p [] f = tt
All-keep P p (x ∷ xs) f = elim (Bool-cases (p x)) [
  | inl e ↦ rw e (f x e, All-keep P p xs f)
  | inr e ↦ rw e (All-keep P p xs f)
]

module _ {ℓ} {A : Type ℓ} where
  -- Where a row that passes the one test has a fixed outcome `c` of the other.
  pub contains-keep :
      (q p : A → Bool) (c : Bool) (xs : List A)
      → ((x : A) → q x ≡ true → p x ≡ c)
      → contains q (keep p xs) ≡ (c && contains q xs)
  unfolding contains keep
  contains-keep q p c [] h = ground arith
  contains-keep q p c (x ∷ xs) h = ground (arith, contains-keep q p c xs h, h x)

pub All-update {ℓ κ μ} :
    {A : Type ℓ} (P : A → Type κ) (Q : A → Type μ) (p : A → Bool) (f : A → A) (xs : List A)
    → ((x : A) → P x → Q (if p x then f x else x))
    → All P xs
    → All Q (update p f xs)
unfolding update
All-update P Q p f [] g h = tt
All-update P Q p f (x ∷ xs) g h = (g x h.0, All-update P Q p f xs g h.1)

pub All-unit {ℓ} : {A : Type ℓ} (xs : List A) → All (λ _. Unit {0}) xs
All-unit [] = tt
All-unit (x ∷ xs) = (tt, All-unit xs)

-- An update that leaves what a function reads.
pub map-update {ℓ κ} :
    {A : Type ℓ} {B : Type κ} (g : A → B) (p : A → Bool) (f : A → A) (xs : List A)
    → ((x : A) → g (f x) ≡ g x)
    → map g (update p f xs) ≡ map g xs
unfolding update
map-update g p f [] h = refl
map-update g p f (x ∷ xs) h = elim (Bool-cases (p x)) [
  | inl e ↦ rw (e, h x, map-update g p f xs h) refl
  | inr e ↦ rw (e, map-update g p f xs h) refl
]
