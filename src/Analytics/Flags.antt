-- ===== src/Analytics/Flags.antt =====
-- Which blocks the backfill of analytics.rs has open, and how a statement closes them.
use mathlib.Core.Path.{subst}
use block_ex.Prelude.{
  ℕ, ◌+◌, ◌≤◌, ◌<◌, ◌≡◌, refl, sym, ap, ◌∙◌, ◌&&◌, ◌||◌, not, Bool, true, false, Bool-cases, inl,
  inr, List, [], ◌∷◌, map, length, keep, contains, contains-append, All, All-weaken, All-keep,
  All-unit, update, upsert, arith, if◌then◌else◌,
}
use block_ex.Prelude.Int.{ℤ}
use block_ex.Prelude.Order.{eq_ℤ}
use block_ex.Result.{Result, ok}
use block_ex.Db.{Db, BlockRow, SoftFactsRow, TxRow}
use block_ex.Store.SoftFacts.{put_soft_facts, put_for, soft_facts_row, clear_pending}
use block_ex.Analytics.Done.{keep-eq-nil}

-- The height of each block, and whether it is open.
abbrev pub flags_of : List SoftFactsRow → List BlockRow → List (ℤ × Bool)
flags_of facts bs =
    map
      (λ b.
        (b.height, b.analytics_pending || not (contains (λ s. eq_ℤ s.block_height b.height) facts)))
      bs

abbrev pub flags : Db → List (ℤ × Bool)
flags d = flags_of d.soft_facts d.blocks

abbrev pub close : ℤ → ℤ × Bool → ℤ × Bool
close h (x, o) = (x, if eq_ℤ x h then false else o)

module _ (h : ℤ) (f : SoftFactsRow → SoftFactsRow) (new : SoftFactsRow)
    (new_at : eq_ℤ new.block_height h ≡ true)
    (f_at : (r : SoftFactsRow) → eq_ℤ (f r).block_height h ≡ true) where
  abbrev at_height : ℤ → SoftFactsRow → Bool
  at_height x r = eq_ℤ r.block_height x

  contains-update_same :
      (x : ℤ) (xs : List SoftFactsRow)
      → eq_ℤ x h ≡ true
      → contains (at_height h) xs ≡ true
      → contains (at_height x) (update (at_height h) f xs) ≡ true
  unfolding contains update
  contains-update_same x [] e c = absurd (cc c)
  contains-update_same x (r ∷ rs) e c = elim (Bool-cases (at_height h r)) [
    | inl k ↦ rw k (ground (arith, f_at r))
    | inr k ↦ rw k (ground (arith, contains-update_same x rs e))
  ]

  contains-update_other :
      (x : ℤ) (xs : List SoftFactsRow)
      → eq_ℤ x h ≡ false
      → contains (at_height x) (update (at_height h) f xs) ≡ contains (at_height x) xs
  unfolding contains update
  contains-update_other x [] e = refl
  contains-update_other x (r ∷ rs) e = elim (Bool-cases (at_height h r)) [
    | inl k ↦ rw k (ground (arith, f_at r, contains-update_other x rs e))
    | inr k ↦ rw k (ground (arith, contains-update_other x rs e))
  ]

  contains-upsert_same :
      (x : ℤ) (xs : List SoftFactsRow)
      → eq_ℤ x h ≡ true
      → contains (at_height x) (upsert (at_height h) f new xs) ≡ true
  unfolding upsert contains
  contains-upsert_same x xs e = elim (Bool-cases (contains (at_height h) xs)) [
    | inl c ↦ rw c (contains-update_same x xs e c)
    | inr c ↦ rw c (contains-append (at_height x) xs (new ∷ []) ∙ ground (arith, new_at))
  ]

  contains-upsert_other :
      (x : ℤ) (xs : List SoftFactsRow)
      → eq_ℤ x h ≡ false
      → contains (at_height x) (upsert (at_height h) f new xs) ≡ contains (at_height x) xs
  unfolding upsert contains
  contains-upsert_other x xs e = elim (Bool-cases (contains (at_height h) xs)) [
    | inl c ↦ rw c (contains-update_other x xs e)
    | inr c ↦ rw c (contains-append (at_height x) xs (new ∷ []) ∙ ground (arith, new_at))
  ]

-- There are facts for the height, and for the others what there was.
abbrev HasFactsAt : ℤ → List SoftFactsRow → List SoftFactsRow → BlockRow → Type 0
HasFactsAt h facts facts' b =
    contains (λ (s : SoftFactsRow). eq_ℤ s.block_height b.height) facts'
    ≡ (eq_ℤ b.height h || contains (λ (s : SoftFactsRow). eq_ℤ s.block_height b.height) facts)

put_soft_facts-HasFactsAt :
    (h : ℤ) (ts : List TxRow) (n : ℕ) (d d' : Db)
    → put_soft_facts h ts n d ≡ ok d'
    → (d'.blocks ≡ d.blocks) × All (HasFactsAt h d.soft_facts d'.soft_facts) d.blocks
unfolding put_soft_facts
put_soft_facts-HasFactsAt h ts n d d' e =
    go (keep (λ (b : BlockRow). eq_ℤ b.height h) d.blocks) refl e
  where
    facts_of : Result Db → List SoftFactsRow
    facts_of (ok c) = c.soft_facts
    facts_of _ = []

    blocks_of : Result Db → List BlockRow
    blocks_of (ok c) = c.blocks
    blocks_of _ = []

    written :
        (b : BlockRow)
        → eq_ℤ b.height h ≡ true
        → (c : BlockRow) → HasFactsAt h d.soft_facts (facts_of (put_for h ts n d (b ∷ []))) c
    written b at c = elim (Bool-cases (eq_ℤ c.height h)) [
      | inl e ↦
          contains-upsert_same h _ (soft_facts_row b ts n) at (λ r. at) c.height d.soft_facts e
          ∙ rw e refl
      | inr e ↦
          contains-upsert_other h _ (soft_facts_row b ts n) at (λ r. at) c.height d.soft_facts e
          ∙ rw e refl
    ]

    go :
        (kept : List BlockRow)
        → keep (λ (b : BlockRow). eq_ℤ b.height h) d.blocks ≡ kept
        → put_for h ts n d kept ≡ ok d'
        → (d'.blocks ≡ d.blocks) × All (HasFactsAt h d.soft_facts d'.soft_facts) d.blocks
    go [] k e =
        let same : d ≡ d' = cc e in
        (
          sym (ap (λ d. d.blocks) same),
          subst (λ (c : Db). All (HasFactsAt h d.soft_facts c.soft_facts) d.blocks) same
              (All-weaken _ _ d.blocks (λ b q. rw q refl) (keep-eq-nil _ d.blocks k)),
        )
    go (b ∷ []) k e =
        let at : eq_ℤ b.height h ≡ true =
          (subst (All (λ (b : BlockRow). eq_ℤ b.height h ≡ true)) k
            (All-keep _ _ d.blocks (λ b q. q))).0 in
        (
          ap blocks_of (sym e),
          subst (λ (r : Result Db). All (HasFactsAt h d.soft_facts (facts_of r)) d.blocks) e
              (All-weaken _ _ d.blocks (λ c _. written b at c) (All-unit d.blocks)),
        )
    go (b ∷ c ∷ more) k e = absurd (cc e)

flags-clear_pending :
    (h : ℤ) (facts facts' : List SoftFactsRow) (bs : List BlockRow)
    → All (HasFactsAt h facts facts') bs
    → flags_of facts'
        (update (λ b. eq_ℤ b.height h) (λ b. record b { analytics_pending = false }) bs)
      ≡ map (close h) (flags_of facts bs)
unfolding update
flags-clear_pending h facts facts' [] a = refl
flags-clear_pending h facts facts' (b ∷ bs) a = elim (Bool-cases (eq_ℤ b.height h)) [
  | inl e ↦ rw (e, a.0, flags-clear_pending h facts facts' bs a.1) (rw e refl)
  | inr e ↦ rw (e, a.0, flags-clear_pending h facts facts' bs a.1) (rw e refl)
]

update-update :
    (h : ℤ) (bs : List BlockRow)
    → update
        (λ b. eq_ℤ b.height h)
        (λ b. record b { analytics_pending = false })
        (update (λ b. eq_ℤ b.height h) (λ b. record b { analytics_pending = false }) bs)
      ≡ update (λ b. eq_ℤ b.height h) (λ b. record b { analytics_pending = false }) bs
unfolding update
update-update h [] = refl
update-update h (b ∷ bs) = elim (Bool-cases (eq_ℤ b.height h)) [
  | inl e ↦ rw (e, update-update h bs) (rw e refl)
  | inr e ↦ rw (e, update-update h bs) (rw e refl)
]

-- How many blocks are open.
unfoldable pub opens : List (ℤ × Bool) → ℕ
opens [] = 0
opens ((x, o) ∷ fs) = (if o then 1 else 0) + opens fs

pub opens_bounds :
    (facts : List SoftFactsRow) (bs : List BlockRow) → opens (flags_of facts bs) ≤ length bs
unfolding opens
opens_bounds facts [] = omega arith
opens_bounds facts (b ∷ bs) = ground (arith, opens_bounds facts bs)

pub opens-close : (h : ℤ) (fs : List (ℤ × Bool)) → opens (map (close h) fs) ≤ opens fs
unfolding opens
opens-close h [] = omega arith
opens-close h ((x, o) ∷ fs) = ground (arith, opens-close h fs)

pub opens-close_open :
    (h : ℤ) (fs : List (ℤ × Bool))
    → contains (λ (f : ℤ × Bool). eq_ℤ f.0 h && f.1) fs ≡ true
    → opens (map (close h) fs) < opens fs
unfolding opens contains
opens-close_open h [] e = absurd (cc e)
opens-close_open h ((x, o) ∷ fs) e = ground (arith, opens-close h fs, opens-close_open h fs)

pub closed :
    (h : ℤ) (ts : List TxRow) (n : ℕ) (d d' : Db)
    → put_soft_facts h ts n d ≡ ok d'
    → flags (clear_pending h (clear_pending h d')) ≡ map (close h) (flags d)
unfolding clear_pending
closed h ts n d d' e =
    let (same, there) = put_soft_facts-HasFactsAt h ts n d d' e in
    ap (flags_of d'.soft_facts) (update-update h d'.blocks)
    ∙ ap
        (λ bs.
          flags_of d'.soft_facts
            (update (λ b. eq_ℤ b.height h) (λ b. record b { analytics_pending = false }) bs))
        same
    ∙ flags-clear_pending h d.soft_facts d'.soft_facts d.blocks there
