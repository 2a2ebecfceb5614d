-- ===== src/Prelude/Sorting.antt =====
-- `ORDER BY` and `sort_by_key`: a stable sort by a test, and what it keeps.
use mathlib.Core.Path.{◌≡◌, refl}
use mathlib.Core.Logic.{inl, inr}
use mathlib.Core.Bool.{Bool, true, false, ◌||◌}
use mathlib.Core.List.{List, [], ◌∷◌}
use Prim.Native.Nat.{ℕ, zero, suc}
use native.Mathlib.Omega.{arith}
use block_ex.Prelude.Tests.{Bool-cases, if◌then◌else◌}
use block_ex.Prelude.Lists.{All, take}
use block_ex.Prelude.Rows.{contains, All-weaken}

module _ {ℓ} {A : Type ℓ} (le : A → A → Bool) where
  unfoldable pub insert_by : A → List A → List A
  insert_by x [] = x ∷ []
  insert_by x (y ∷ ys) = let rest = insert_by x ys in if le x y then x ∷ y ∷ ys else y ∷ rest

  unfoldable pub sort_by : List A → List A
  unfolding insert_by
  sort_by [] = []
  sort_by (x ∷ xs) = insert_by x (sort_by xs)

  -- Each element comes before those behind it.
  abbrev pub IsSortedBy : List A → Type ℓ
  IsSortedBy [] = Unit
  IsSortedBy (x ∷ xs) = All (λ y. le x y ≡ true) xs × IsSortedBy xs

  module _ {κ} (P : A → Type κ) where
    All-insert_by : (x : A) (ys : List A) → P x → All P ys → All P (insert_by x ys)
    unfolding insert_by
    All-insert_by x [] p h = (p, tt)
    All-insert_by x (y ∷ ys) p h = elim (Bool-cases (le x y)) [
      | inl e ↦ rw e (p, h)
      | inr e ↦ rw e (h.0, All-insert_by x ys p h.1)
    ]

    pub All-sort_by : (xs : List A) → All P xs → All P (sort_by xs)
    unfolding sort_by
    All-sort_by [] h = tt
    All-sort_by (x ∷ xs) h = All-insert_by x (sort_by xs) h.0 (All-sort_by xs h.1)

  contains-insert_by :
      (p : A → Bool) (x : A) (ys : List A) → contains p (insert_by x ys) ≡ (p x || contains p ys)
  unfolding insert_by contains
  contains-insert_by p x [] = refl
  contains-insert_by p x (y ∷ ys) = ground (arith, contains-insert_by p x ys)

  pub contains-sort_by : (p : A → Bool) (xs : List A) → contains p (sort_by xs) ≡ contains p xs
  unfolding sort_by contains
  contains-sort_by p [] = refl
  contains-sort_by p (x ∷ xs) =
      ground (arith, contains-insert_by p x (sort_by xs), contains-sort_by p xs)

  module _ (total : (x y : A) → le x y ≡ false → le y x ≡ true)
      (trans : (x y z : A) → le x y ≡ true → le y z ≡ true → le x z ≡ true) where
    insert_by-IsSortedBy : (x : A) (ys : List A) → IsSortedBy ys → IsSortedBy (insert_by x ys)
    unfolding insert_by
    insert_by-IsSortedBy x [] s = (tt, tt)
    insert_by-IsSortedBy x (y ∷ ys) s = elim (Bool-cases (le x y)) [
      | inl e ↦ rw e ((e, All-weaken _ _ ys (λ z. trans x y z e) s.0), s)
      | inr e ↦
          rw e (
            All-insert_by (λ z. le y z ≡ true) x ys (total x y e) s.0,
            insert_by-IsSortedBy x ys s.1,
          )
    ]

    pub sort_by-IsSortedBy : (xs : List A) → IsSortedBy (sort_by xs)
    unfolding sort_by
    sort_by-IsSortedBy [] = tt
    sort_by-IsSortedBy (x ∷ xs) = insert_by-IsSortedBy x (sort_by xs) (sort_by-IsSortedBy xs)

  module _ {κ} (P : A → Type κ) where
    pub All-take : (n : ℕ) (xs : List A) → All P xs → All P (take n xs)
    All-take zero xs h = tt
    All-take (suc n) [] h = tt
    All-take (suc n) (x ∷ xs) h = (h.0, All-take n xs h.1)

  pub take-IsSortedBy : (n : ℕ) (xs : List A) → IsSortedBy xs → IsSortedBy (take n xs)
  take-IsSortedBy zero xs s = tt
  take-IsSortedBy (suc n) [] s = tt
  take-IsSortedBy (suc n) (x ∷ xs) s = (All-take _ n xs s.0, take-IsSortedBy n xs s.1)
