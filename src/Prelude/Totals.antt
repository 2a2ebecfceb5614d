-- ===== src/Prelude/Totals.antt =====
-- Sums and predicates over a list, one place of which is replaced.
use mathlib.Core.Path.{◌≡◌, refl}
use mathlib.Core.List.{List, [], ◌∷◌, ◌++◌}
use Prim.Native.Nat.{ℕ, zero, suc, ◌+◌, ◌≤◌}
use native.Mathlib.Omega.{arith}
use block_ex.Prelude.Lists.{All, length, replicate}

unfoldable pub total {ℓ} : {A : Type ℓ} → (A → ℕ) → List A → ℕ
total f [] = 0
total f (x ∷ xs) = f x + total f xs

module _ {ℓ} {A : Type ℓ} where
  module _ (f : A → ℕ) where
    total-middle : (xs ys : List A) (x : A) → total f (xs ++ x ∷ ys) ≡ f x + total f (xs ++ ys)
    unfolding total
    total-middle [] ys x = refl
    total-middle (z ∷ xs) ys x = omega (arith, total-middle xs ys x)

    pub total-replace :
        (l xs ys : List A) (x y : A)
        → l ≡ xs ++ x ∷ ys
        → total f (xs ++ y ∷ ys) + f x ≡ total f l + f y
    total-replace l xs ys x y e = rw e (omega (arith, total-middle xs ys x, total-middle xs ys y))

    pub total-replicate : (n : ℕ) (x : A) → f x ≡ 0 → total f (replicate n x) ≡ 0
    unfolding total
    total-replicate zero x e = refl
    total-replicate (suc n) x e = omega (arith, total-replicate n x e)

  -- Where each place counts for one at most, the sum is no more than the places.
  pub total-le-length : (f : A → ℕ) (xs : List A) → ((x : A) → f x ≤ 1) → total f xs ≤ length xs
  unfolding total
  total-le-length f [] h = omega arith
  total-le-length f (x ∷ xs) h = omega (arith, h x, total-le-length f xs h)

  pub length-replace :
      (l xs ys : List A) (x y : A) → l ≡ xs ++ x ∷ ys → length (xs ++ y ∷ ys) ≡ length l
  length-replace l [] ys x y e = rw e refl
  length-replace l (z ∷ xs) ys x y e =
      rw e (omega (arith, length-replace (xs ++ x ∷ ys) xs ys x y refl))

  module _ {κ} (P : A → Type κ) where
    All-at : (xs ys : List A) (x : A) → All P (xs ++ x ∷ ys) → P x
    All-at [] ys x h = h.0
    All-at (z ∷ xs) ys x h = All-at xs ys x h.1

    All-put : (xs ys : List A) (x y : A) → All P (xs ++ x ∷ ys) → P y → All P (xs ++ y ∷ ys)
    All-put [] ys x y h p = (p, h.1)
    All-put (z ∷ xs) ys x y h p = (h.0, All-put xs ys x y h.1 p)

    pub All-found : (l xs ys : List A) (x : A) → l ≡ xs ++ x ∷ ys → All P l → P x
    All-found l xs ys x e h = All-at xs ys x (rw e at h)

    pub All-replace :
        (l xs ys : List A) (x y : A) → l ≡ xs ++ x ∷ ys → P y → All P l → All P (xs ++ y ∷ ys)
    All-replace l xs ys x y e p h = All-put xs ys x y (rw e at h) p

    pub All-replicate : (n : ℕ) (x : A) → P x → All P (replicate n x)
    All-replicate zero x p = tt
    All-replicate (suc n) x p = (p, All-replicate n x p)

    pub total_zero :
        (f : A → ℕ) (xs : List A) → ((x : A) → P x → f x ≡ 0) → All P xs → total f xs ≡ 0
    unfolding total
    total_zero f [] h a = refl
    total_zero f (x ∷ xs) h a = omega (arith, h x a.0, total_zero f xs h a.1)
