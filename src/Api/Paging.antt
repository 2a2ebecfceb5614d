-- ===== src/Api/Paging.antt =====
-- api/src/routes.rs, `list_blocks`: which blocks a page shows.
use mathlib.Core.Path.{subst}
use mathlib.Core.List.{Perm}
use block_ex.Prelude.{sym, ◌++◌}
use block_ex.Prelude.Permuted.{behind_first, take-behind_first, take-full, sort_by-perm}
use mathlib.Core.List.{map}
use block_ex.Prelude.{
  ℕ, zero, suc, ◌≤◌, ◌≡◌, ◌⊎◌, inl, inr, refl, ap, ◌∙◌, ◌||◌, Bool, true, Option, none, some, List,
  [], ◌∷◌, arith, All, All-weaken, All-keep, Bool-cases, length, length-map, length-take, take,
  keep, contains, contains-keep,
}
use block_ex.Prelude.Int.{ℤ, pos_part, ◌≤ℤ◌}
use block_ex.Prelude.Order.{leb_ℤ, eq_ℤ}
use block_ex.Prelude.Sorting.{
  sort_by, IsSortedBy, All-sort_by, sort_by-IsSortedBy, contains-sort_by, All-take, take-IsSortedBy,
}
use block_ex.Db.{Db, BlockRow}
use block_ex.Api.{Env}
use block_ex.Api.Models.{BlockView}
use block_ex.Api.Queries.{above, blocks_page, block_view}
use block_ex.Api.Routes.{page_limit}

-- The heights fall, or stay.
abbrev pub IsFalling : List BlockView → Type 0
IsFalling [] = Unit
IsFalling (v ∷ vs) = All (λ (w : BlockView). w.height ≤ℤ v.height) vs × IsFalling vs

-- The view shows the row: its height, the text of its hash, and its other columns.
pub record IsViewOf (env : Env) (b : BlockRow) (v : BlockView) : Type 0 where
  pub height : v.height ≡ b.height
  pub hash : v.hash ≡ some (env.encode b.hash)
  pub ts : v.ts ≡ some b.block_timestamp
  pub size_bytes : v.size_bytes ≡ b.size_bytes
  pub major_version : v.major_version ≡ b.major_version
  pub minor_version : v.minor_version ≡ b.minor_version
  pub tx_count : v.tx_count ≡ b.tx_count
  pub reward_nanos : v.reward_nanos ≡ b.reward_nanos

-- One view for each row.
abbrev pub Shows : Env → List BlockRow → List BlockView → Type 0
Shows env [] [] = Unit
Shows env (b ∷ bs) (v ∷ vs) = IsViewOf env b v × Shows env bs vs
Shows env [] (v ∷ vs) = ⊥
Shows env (b ∷ bs) [] = ⊥

-- The stored blocks up to the start are those that the page shows, each once, and a rest, of which
-- there is none unless the page is full. The page is from above, and no longer than the limit; a
-- height of a stored block up to the start is in it, unless it is full of heights that are no lower.
pub record IsPage (env : Env) (start limit : ℤ) (d : Db) (l : List BlockView) : Type 0 where
  pub rows : List BlockRow
  pub rest : List BlockRow
  pub shown : Shows env rows l
  pub stored : Perm (rows ++ rest) (keep (λ b. leb_ℤ b.height start) d.blocks)
  pub full : (length l ≡ pos_part limit) ⊎ (rest ≡ [])
  pub below : All (λ (v : BlockView). v.height ≤ℤ start) l
  pub falling : IsFalling l
  pub short : length l ≤ pos_part limit
  pub complete :
      (h : ℤ)
      → h ≤ℤ start
      → contains (λ b. eq_ℤ b.height h) d.blocks ≡ true
      → (contains (λ (v : BlockView). eq_ℤ v.height h) l ≡ true)
        ⊎ ((length l ≡ pos_part limit) × All (λ (v : BlockView). h ≤ℤ v.height) l)

-- A row of a list of which a test holds.
record Among {ℓ} {A : Type ℓ} (p : A → Bool) (xs : List A) : Type (ℓ ⊔ 1) where
  row : A
  passes : p row ≡ true
  inside : (P : A → Type 0) → All P xs → P row

contains-Among {ℓ} : {A : Type ℓ} (p : A → Bool) (xs : List A) → contains p xs ≡ true → Among p xs
unfolding contains
contains-Among p [] h = absurd (cc h)
contains-Among p (x ∷ xs) h = elim (Bool-cases (p x)) [
  | inl e ↦ record { row = x; passes = e; inside = λ P a. a.0 }
  | inr e ↦
      let r = contains-Among p xs (ground arith) in
      record { row = r.row; passes = r.passes; inside = λ P a. r.inside P a.1 }
]

module _ {ℓ} {A : Type ℓ} (le : A → A → Bool) where
  -- A row that is not among the first rows of a sorted list is behind all of them.
  IsBehind : (A → Bool) → ℕ → List A → Type (ℓ ⊔ 1)
  IsBehind p n xs =
      (length (take n xs) ≡ n) × ((r : Among p xs) × All (λ x. le x r.row ≡ true) (take n xs))

  take-contains :
      (p : A → Bool) (n : ℕ) (xs : List A)
      → IsSortedBy le xs
      → contains p xs ≡ true
      → (contains p (take n xs) ≡ true) ⊎ IsBehind p n xs
  unfolding contains IsBehind
  take-contains p n [] s h = absurd (cc h)
  take-contains p zero (x ∷ xs) s h = inr (refl, (contains-Among p (x ∷ xs) h, tt))
  take-contains p (suc n) (x ∷ xs) s h = elim (Bool-cases (p x)) [
    | inl e ↦ inl (rw e refl)
    | inr e ↦ elim (take-contains p n xs s.1 (ground arith)) [
      | inl there ↦ inl (ground arith)
      | inr (full, (r, behind)) ↦ inr (
        ap suc full,
        (
          record { row = r.row; passes = r.passes; inside = λ P a. r.inside P a.1 },
          (r.inside (λ y. le x y ≡ true) s.0, behind),
        ),
      )
    ]
  ]

pub All-map {ℓ κ μ} :
    {A : Type ℓ} {B : Type κ} (f : A → B) (P : B → Type μ) (xs : List A)
    → All (λ x. P (f x)) xs
    → All P (map f xs)
All-map f P [] h = tt
All-map f P (x ∷ xs) h = (h.0, All-map f P xs h.1)

contains-map {ℓ κ} :
    {A : Type ℓ} {B : Type κ} (f : A → B) (p : B → Bool) (xs : List A)
    → contains p (map f xs) ≡ contains (λ x. p (f x)) xs
unfolding contains
contains-map f p [] = refl
contains-map f p (x ∷ xs) = ap (λ b. p (f x) || b) (contains-map f p xs)

module _ (env : Env) where
  shows : (bs : List BlockRow) → Shows env bs (map (block_view env) bs)
  shows [] = tt
  shows (b ∷ bs) = (
    record {
      height = refl;
      hash = refl;
      ts = refl;
      size_bytes = refl;
      major_version = refl;
      minor_version = refl;
      tx_count = refl;
      reward_nanos = refl;
    },
    shows bs,
  )

  falls : (bs : List BlockRow) → IsSortedBy above bs → IsFalling (map (block_view env) bs)
  falls [] s = tt
  falls (b ∷ bs) s = (
    All-map (block_view env) _ bs
        (All-weaken _ (λ (c : BlockRow). c.height ≤ℤ b.height) bs (λ c e. ground arith) s.0),
    falls bs s.1,
  )

  any_limit : (start limit : ℤ) (d : Db) → IsPage env start limit d (blocks_page env start limit d)
  unfolding blocks_page IsBehind
  any_limit start limit d = record {
    rows = take n sorted;
    rest = behind_first n sorted;
    shown = shows (take n sorted);
    stored = subst (λ l. Perm l kept) (sym (take-behind_first n sorted)) (sort_by-perm above kept);
    full = elim (take-full n sorted) [
      | inl e ↦ inl (length-map (take n sorted) (block_view env) ∙ e)
      | inr e ↦ inr e
    ];
    below = All-map _ _ (take n sorted) (
        All-take above _ n sorted
          (All-sort_by above _ kept (All-keep _ _ d.blocks λ b e. ground arith)));
    falling = falls (take n sorted) (take-IsSortedBy above n sorted in_order);
    short = omega (arith, length-map (take n sorted) (block_view env), length-take n sorted);
    complete = λ h low there.
        elim (take-contains above (at h) n sorted in_order (kept_there h low there)) [
          | inl found ↦ inl (contains-map (block_view env) _ (take n sorted) ∙ found)
          | inr (full, (r, behind)) ↦ inr (
            length-map (take n sorted) (block_view env) ∙ full,
            All-map _ _ (take n sorted)
                (All-weaken _ _ (take n sorted) (λ b e. higher h b r.row e r.passes) behind),
          )
        ];
  }
    where
      n : ℕ
      n = pos_part limit

      at : ℤ → BlockRow → Bool
      at h b = eq_ℤ b.height h

      kept : List BlockRow
      kept = keep (λ b. leb_ℤ b.height start) d.blocks

      sorted : List BlockRow
      sorted = sort_by above kept

      in_order : IsSortedBy above sorted
      in_order = sort_by-IsSortedBy above (λ x y e. ground arith) (λ x y z e f. ground arith) kept

      kept_there :
          (h : ℤ) → h ≤ℤ start → contains (at h) d.blocks ≡ true → contains (at h) sorted ≡ true
      kept_there h low there =
          contains-sort_by above (at h) kept
          ∙ contains-keep (at h) _ true d.blocks (λ b e. ground arith)
          ∙ there

      higher : (h : ℤ) (b r : BlockRow) → above b r ≡ true → at h r ≡ true → h ≤ℤ b.height
      higher h b r e f = ground arith

  -- Whatever limit is asked for, or none, the page of a start shows stored blocks up to the start, each
  -- once with its columns and the text of its hash, from above, as many as the limit allows, which are
  -- never more than 200; a stored block up to the start is left out only when the page is full, of
  -- blocks that are no lower.
  pub blocks_page-IsPage :
      (start : ℤ) (limit : Option ℤ) (d : Db)
      → IsPage env start (page_limit limit) d (blocks_page env start (page_limit limit) d)
        × (length (blocks_page env start (page_limit limit) d) ≤ 200)
  blocks_page-IsPage start limit d =
      let p = any_limit start (page_limit limit) d in (p, omega (arith, p.short, limited limit))
    where
      limited : (limit : Option ℤ) → pos_part (page_limit limit) ≤ 200
      limited none = unfold page_limit in omega arith
      limited (some l) = unfold page_limit in ground arith
