-- ===== src/Prelude/Counts.antt =====
-- How often an integer occurs in a list, and a set of consecutive integers as such a count.
use mathlib.Core.Path.{◌≡◌, refl}
use mathlib.Core.List.{List, [], ◌∷◌, ◌++◌, map, map-append}
use Prim.Native.Nat.{ℕ, ◌+◌}
use native.Mathlib.Omega.{arith}
use block_ex.Prelude.Tests.{if◌then◌else◌}
use block_ex.Prelude.Int.{ℤ}
use block_ex.Prelude.Order.{eq_ℤ}

-- 1 for the integer, and 0 for another.
unfoldable pub once : ℤ → ℤ → ℕ
once h x = if eq_ℤ x h then 1 else 0

unfoldable pub count : ℤ → List ℤ → ℕ
count h [] = 0
count h (x ∷ xs) = once h x + count h xs

pub count-append : (h : ℤ) (xs ys : List ℤ) → count h (xs ++ ys) ≡ count h xs + count h ys
unfolding count
count-append h [] ys = omega arith
count-append h (x ∷ xs) ys = omega (arith, count-append h xs ys)

pub count-cons : (h x : ℤ) (xs : List ℤ) → count h (x ∷ xs) ≡ once h x + count h xs
unfolding count
count-cons h x xs = refl

pub count-middle :
    (h x : ℤ) (xs ys : List ℤ) → count h (xs ++ x ∷ ys) ≡ once h x + count h (xs ++ ys)
count-middle h x xs ys =
    omega (arith, count-append h xs (x ∷ ys), count-append h xs ys, count-cons h x ys)

pub count-snoc : (h x : ℤ) (xs : List ℤ) → count h (xs ++ x ∷ []) ≡ count h xs + once h x
unfolding count
count-snoc h x xs = omega (arith, count-append h xs (x ∷ []))

module _ {ℓ} {A : Type ℓ} (f : A → ℤ) (h : ℤ) where
  pub count-map_middle :
      (xs ys : List A) (x : A) (l : List A)
      → l ≡ xs ++ x ∷ ys
      → count h (map f l) ≡ once h (f x) + count h (map f (xs ++ ys))
  count-map_middle xs ys x l e =
      rw (e, map-append f xs (x ∷ ys), map-append f xs ys)
        (count-middle h (f x) (map f xs) (map f ys))

  pub count-map_snoc :
      (l : List A) (x : A) → count h (map f (l ++ x ∷ [])) ≡ count h (map f l) + once h (f x)
  count-map_snoc l x = rw (map-append f l (x ∷ [])) (count-snoc h (f x) (map f l))

  pub count-map_cons :
      (l rest : List A) (x : A)
      → l ≡ x ∷ rest
      → count h (map f l) ≡ once h (f x) + count h (map f rest)
  count-map_cons l rest x e = rw e (count-cons h (f x) (map f rest))
