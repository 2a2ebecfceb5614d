-- ===== src/Prelude/Permuted.antt =====
-- What `take` leaves behind, and a sort as a permutation.
use mathlib.Core.Path.{◌≡◌, refl, ap}
use mathlib.Core.Logic.{◌⊎◌, inl, inr}
use mathlib.Core.Bool.{Bool}
use mathlib.Core.List.{List, [], ◌∷◌, ◌++◌, Perm}
use mathlib.Core.List.Perm
use Prim.Native.Nat.{ℕ, zero, suc}
use block_ex.Prelude.Tests.{Bool-cases}
use block_ex.Prelude.Lists.{take, length}
use block_ex.Prelude.Sorting.{insert_by, sort_by}

module _ {ℓ} {A : Type ℓ} where
  unfoldable pub behind_first : ℕ → List A → List A
  behind_first zero xs = xs
  behind_first (suc n) [] = []
  behind_first (suc n) (x ∷ xs) = behind_first n xs

  pub take-behind_first : (n : ℕ) (xs : List A) → take n xs ++ behind_first n xs ≡ xs
  unfolding behind_first
  take-behind_first zero xs = refl
  take-behind_first (suc n) [] = refl
  take-behind_first (suc n) (x ∷ xs) = ap (λ l. x ∷ l) (take-behind_first n xs)

  pub take-full : (n : ℕ) (xs : List A) → (length (take n xs) ≡ n) ⊎ (behind_first n xs ≡ [])
  unfolding behind_first
  take-full zero xs = inl refl
  take-full (suc n) [] = inr refl
  take-full (suc n) (x ∷ xs) = elim (take-full n xs) [ inl e ↦ inl (ap suc e) | inr e ↦ inr e ]

  module _ (le : A → A → Bool) where
    insert_by-perm : (x : A) (ys : List A) → Perm (insert_by le x ys) (x ∷ ys)
    unfolding insert_by
    insert_by-perm x [] = Perm.refl (x ∷ [])
    insert_by-perm x (y ∷ ys) = elim (Bool-cases (le x y)) [
      | inl e ↦ rw e (Perm.refl (x ∷ y ∷ ys))
      | inr e ↦ rw e (Perm.trans (Perm.cons y (insert_by-perm x ys)) (Perm.swap x y ys))
    ]

    pub sort_by-perm : (xs : List A) → Perm (sort_by le xs) xs
    unfolding sort_by
    sort_by-perm [] = Perm.nil
    sort_by-perm (x ∷ xs) =
        Perm.trans (insert_by-perm x (sort_by le xs)) (Perm.cons x (sort_by-perm xs))
