-- ===== src/Api/Rings.antt =====
-- api/src/routes.rs, `get_tx_rings`: how the rows become sets.
use mathlib.Core.List.{map, append-nil, append_assoc}
use block_ex.Prelude.{
  ◌≡◌, refl, sym, ap, ◌∙◌, Bool, true, false, List, [], ◌∷◌, ◌++◌, arith, All, All-weaken,
  Bool-cases, inl, inr, keep, if◌then◌else◌,
}
use block_ex.Prelude.Int.{ℤ, ◌≤ℤ◌, ◌+ℤ◌, pos}
use block_ex.Prelude.Order.{leb_ℤ, eq_ℤ}
use block_ex.Prelude.Sorting.{sort_by}
use block_ex.Api.Models.{RingView, RingMemberView, RingSetView}
use block_ex.Api.Paging.{All-map}
use block_ex.Api.Routes.{push_member, member, group_rows, ring_sets}

abbrev Groups : Type 0
Groups = List (ℤ × List RingMemberView)

-- The members of a key.
unfoldable members_at : ℤ → Groups → List RingMemberView
members_at i [] = []
members_at i ((j, ms) ∷ rest) = if eq_ℤ j i then ms ++ members_at i rest else members_at i rest

-- The keys rise.
abbrev AreRising : Groups → Type 0
AreRising [] = Unit
AreRising ((j, ms) ∷ rest) =
    All (λ (e : ℤ × List RingMemberView). j +ℤ pos 1 ≤ℤ e.0) rest × AreRising rest

lt_of : (j k : ℤ) → eq_ℤ j k ≡ false → leb_ℤ j k ≡ true → j +ℤ pos 1 ≤ℤ k
unfolding ◌+ℤ◌
lt_of j k e f = ground arith

gt_of : (j k : ℤ) → leb_ℤ j k ≡ false → k +ℤ pos 1 ≤ℤ j
unfolding ◌+ℤ◌
gt_of j k e = ground arith

lt_trans : (i j k : ℤ) → i +ℤ pos 1 ≤ℤ j → j +ℤ pos 1 ≤ℤ k → i +ℤ pos 1 ≤ℤ k
unfolding ◌+ℤ◌
lt_trans i j k e f = ground arith

eq_lt : (i j k : ℤ) → eq_ℤ i j ≡ true → i +ℤ pos 1 ≤ℤ k → j +ℤ pos 1 ≤ℤ k
unfolding ◌+ℤ◌
eq_lt i j k e f = ground arith

eq_trans : (j k i : ℤ) → eq_ℤ j k ≡ true → eq_ℤ k i ≡ eq_ℤ j i
eq_trans j k i e = ground arith

members_at_above :
    (i : ℤ) (g : Groups)
    → All (λ (e : ℤ × List RingMemberView). i +ℤ pos 1 ≤ℤ e.0) g
    → members_at i g ≡ []
unfolding members_at ◌+ℤ◌
members_at_above i [] h = refl
members_at_above i ((j, ms) ∷ rest) h = ground (arith, members_at_above i rest h.1)

module _ (k : ℤ) (m : RingMemberView) where
  All-push_member :
      (b : ℤ) (g : Groups)
      → b +ℤ pos 1 ≤ℤ k
      → All (λ (e : ℤ × List RingMemberView). b +ℤ pos 1 ≤ℤ e.0) g
      → All (λ (e : ℤ × List RingMemberView). b +ℤ pos 1 ≤ℤ e.0) (push_member k m g)
  unfolding push_member
  All-push_member b [] p h = (p, tt)
  All-push_member b ((j, ms) ∷ rest) p h = elim (Bool-cases (eq_ℤ j k)) [
    | inl e ↦ rw e h
    | inr e ↦ elim (Bool-cases (leb_ℤ j k)) [
      | inl f ↦ rw (e, f) (h.0, All-push_member b rest p h.1)
      | inr f ↦ rw (e, f) (p, h)
    ]
  ]

  push_member-AreRising : (g : Groups) → AreRising g → AreRising (push_member k m g)
  unfolding push_member
  push_member-AreRising [] s = (tt, tt)
  push_member-AreRising ((j, ms) ∷ rest) s = elim (Bool-cases (eq_ℤ j k)) [
    | inl e ↦ rw e s
    | inr e ↦ elim (Bool-cases (leb_ℤ j k)) [
      | inl f ↦
          rw (e, f) (All-push_member j rest (lt_of j k e f) s.0, push_member-AreRising rest s.1)
      | inr f ↦
          rw (e, f)
            ((gt_of j k f, All-weaken _ _ rest (λ x p. lt_trans k j x.0 (gt_of j k f) p) s.0), s)
    ]
  ]

  members_at-push_member :
      (i : ℤ) (g : Groups)
      → AreRising g
      → members_at i (push_member k m g) ≡ members_at i g ++ (if eq_ℤ k i then m ∷ [] else [])
  unfolding push_member members_at
  members_at-push_member i [] s = elim (Bool-cases (eq_ℤ k i)) [
    | inl e ↦ rw e refl
    | inr e ↦ rw e refl
  ]
  members_at-push_member i ((j, ms) ∷ rest) s = elim (Bool-cases (eq_ℤ j k)) [
    | inl e ↦
        rw (e, eq_trans j k i e)
          (elim (Bool-cases (eq_ℤ j i)) [
            | inl f ↦
                rw
                  (
                    f,
                    members_at_above i rest (All-weaken _ _ rest (λ x p. eq_lt j i x.0 f p) s.0),
                    append-nil ms,
                  )
                  (append-nil _)
            | inr f ↦ rw f (sym (append-nil _))
          ])
    | inr e ↦ elim (Bool-cases (leb_ℤ j k)) [
      | inl l ↦
          rw (e, l)
            (elim (Bool-cases (eq_ℤ j i)) [
              | inl f ↦
                  rw (f, members_at-push_member i rest s.1)
                    (sym (append_assoc ms (members_at i rest) (if eq_ℤ k i then m ∷ [] else [])))
              | inr f ↦ rw f (members_at-push_member i rest s.1)
            ])
      | inr l ↦
          rw (e, l)
            (elim (Bool-cases (eq_ℤ k i)) [
              | inl f ↦
                  let gone = members_at_above i ((j, ms) ∷ rest) (
                    eq_lt k i j f (gt_of j k l),
                    All-weaken _ _ rest (λ x p. eq_lt k i x.0 f (lt_trans k j x.0 (gt_of j k l) p))
                        s.0,
                  ) in
                  rw f (ap (λ l. m ∷ l) gone ∙ sym (ap (λ l. l ++ m ∷ []) gone))
              | inr f ↦ rw f (sym (append-nil _))
            ])
    ]
  ]

abbrev rows_of : ℤ → List RingView → List RingMemberView
rows_of i rows = map member (keep (λ (r : RingView). eq_ℤ r.input_idx i) rows)

group_rows-AreRising :
    (g : Groups) (rows : List RingView) → AreRising g → AreRising (group_rows g rows)
unfolding group_rows
group_rows-AreRising g [] s = s
group_rows-AreRising g (r ∷ rows) s =
    group_rows-AreRising (push_member r.input_idx (member r) g) rows
      (push_member-AreRising r.input_idx (member r) g s)

members_at-group_rows :
    (i : ℤ) (g : Groups) (rows : List RingView)
    → AreRising g
    → members_at i (group_rows g rows) ≡ members_at i g ++ rows_of i rows
unfolding group_rows keep
members_at-group_rows i g [] s = sym (append-nil _)
members_at-group_rows i g (r ∷ rows) s =
    members_at-group_rows i (push_member r.input_idx (member r) g) rows
      (push_member-AreRising r.input_idx (member r) g s)
    ∙ rw (members_at-push_member r.input_idx (member r) i g s)
        (elim (Bool-cases (eq_ℤ r.input_idx i)) [
          | inl e ↦ rw e (append_assoc (members_at i g) (member r ∷ []) (rows_of i rows))
          | inr e ↦ rw e (rw (append-nil (members_at i g)) refl)
        ])

-- The members of the sets of an input.
unfoldable pub set_members : ℤ → List RingSetView → List RingMemberView
set_members i [] = []
set_members i (x ∷ xs) =
    if eq_ℤ x.input_idx i then x.members ++ set_members i xs else set_members i xs

-- The inputs rise.
abbrev pub AreOrdered : List RingSetView → Type 0
AreOrdered [] = Unit
AreOrdered (x ∷ xs) =
    All (λ (y : RingSetView). x.input_idx +ℤ pos 1 ≤ℤ y.input_idx) xs × AreOrdered xs

abbrev pub by_ring_index : RingMemberView → RingMemberView → Bool
by_ring_index a b = leb_ℤ a.ring_index b.ring_index

abbrev set_of : ℤ × List RingMemberView → RingSetView
set_of e = record { input_idx = e.0; members = sort_by by_ring_index e.1 }

sets-AreOrdered : (g : Groups) → AreRising g → AreOrdered (map set_of g)
sets-AreOrdered [] s = tt
sets-AreOrdered ((j, ms) ∷ rest) s = (All-map set_of _ rest s.0, sets-AreOrdered rest s.1)

set_members-map :
    (i : ℤ) (g : Groups)
    → AreRising g
    → set_members i (map set_of g) ≡ sort_by by_ring_index (members_at i g)
unfolding set_members members_at
set_members-map i [] s = unfold sort_by in refl
set_members-map i ((j, ms) ∷ rest) s = elim (Bool-cases (eq_ℤ j i)) [
  | inl e ↦
      let gone = members_at_above i rest (All-weaken _ _ rest (λ x p. eq_lt j i x.0 e p) s.0) in
      rw (e, set_members-map i rest s.1, gone, append-nil ms) (unfold sort_by in append-nil _)
  | inr e ↦ rw e (set_members-map i rest s.1)
]

-- The sets of rows are for inputs that rise, and for each input they have the members of its rows, in
-- the order of their indices.
pub ring_sets-AreOrdered :
    (rows : List RingView)
    → AreOrdered (ring_sets rows)
      × ((i : ℤ)
          → set_members i (ring_sets rows)
            ≡ sort_by by_ring_index (map member (keep (λ (r : RingView). eq_ℤ r.input_idx i) rows)))
unfolding ring_sets members_at
ring_sets-AreOrdered rows =
    let rising = group_rows-AreRising [] rows tt in
    (
      sets-AreOrdered (group_rows [] rows) rising,
      λ i.
          set_members-map i (group_rows [] rows) rising
          ∙ ap (sort_by by_ring_index) (members_at-group_rows i [] rows tt),
    )
