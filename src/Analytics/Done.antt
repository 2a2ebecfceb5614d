-- ===== src/Analytics/Done.antt =====
-- What `backfill` of analytics.rs has done when it returns.
use mathlib.Core.Path.{subst}
use block_ex.Prelude.{
  ℕ, zero, suc, ◌+◌, ◌≤◌, ◌≡◌, ◌≢◌, refl, sym, ap, ◌∙◌, Bool, true, false, Bool-cases, inl, inr,
  List, [], ◌∷◌, map, length, take, keep, arith, All, All-weaken,
}
use block_ex.Prelude.Int.{ℤ}
use block_ex.Prelude.Order.{leb_ℤ}
use block_ex.Result.{Result, ok}
use block_ex.Db.{Db, BlockRow}
use block_ex.World.{Env, World, query, transaction}
use block_ex.World.Laws.{>>=-eq-ok, query-ok}
use block_ex.Analytics.{
  has_facts, is_open, insert_height, sort_heights, open_heights, fill, fill_batch, backfill_loop,
  backfill,
}

insert_height-ne-nil : (h : ℤ) (ks : List ℤ) → insert_height h ks ≢ []
unfolding insert_height
insert_height-ne-nil h [] = λ e. absurd (cc e)
insert_height-ne-nil h (k ∷ ks) = elim (Bool-cases (leb_ℤ h k)) [
  | inl e ↦ rw e (λ q. absurd (cc q))
  | inr e ↦ rw e (λ q. absurd (cc q))
]

sort_heights-eq-nil : (hs : List ℤ) → sort_heights hs ≡ [] → hs ≡ []
unfolding sort_heights
sort_heights-eq-nil [] e = refl
sort_heights-eq-nil (h ∷ hs) e = absurd (insert_height-ne-nil h (sort_heights hs) e)

take-eq-nil : (n : ℕ) (hs : List ℤ) → 1 ≤ n → take n hs ≡ [] → hs ≡ []
take-eq-nil n [] p e = refl
take-eq-nil zero (h ∷ hs) p e = absurd (omega arith)
take-eq-nil (suc n) (h ∷ hs) p e = absurd (cc e)

map-eq-nil : (bs : List BlockRow) → map (λ b. b.height) bs ≡ [] → bs ≡ []
map-eq-nil [] e = refl
map-eq-nil (b ∷ bs) e = absurd (cc e)

pub keep-eq-nil :
    (p : BlockRow → Bool) (bs : List BlockRow) → keep p bs ≡ [] → All (λ b. p b ≡ false) bs
unfolding keep
keep-eq-nil p [] e = tt
keep-eq-nil p (b ∷ bs) e = elim (Bool-cases (p b)) [
  | inl q ↦ absurd (cc (rw (q) at e))
  | inr q ↦ (q, keep-eq-nil p bs (rw (q) at e))
]

-- The analytics of every block are there, and none is marked as pending.
abbrev pub IsFilled : Db → Type 0
IsFilled d = All (λ (b : BlockRow). (b.analytics_pending ≡ false) × (has_facts d b ≡ true)) d.blocks

open_heights-eq-nil : (batch : ℕ) (d : Db) → 1 ≤ batch → open_heights batch d ≡ [] → IsFilled d
unfolding open_heights
open_heights-eq-nil batch d p e =
    All-weaken (λ b. is_open d b ≡ false) _ d.blocks (λ b q. (ground arith, ground arith))
      (keep-eq-nil (is_open d) d.blocks
        (map-eq-nil _ (sort_heights-eq-nil _ (take-eq-nil batch _ p e))))

module _ (env : Env) where
  backfill_loop-IsFilled :
      (fuel batch done : ℕ) (w : World) {n : ℕ} {w' : World}
      → 1 ≤ batch
      → backfill_loop env fuel batch done w ≡ (ok n, w')
      → IsFilled w'.database
  unfolding backfill_loop fill_batch
  backfill_loop-IsFilled zero batch done w p h = absurd (cc (ap (λ r. r.0) h))
  backfill_loop-IsFilled (suc fuel) batch done w {n} {w'} p h =
      let (heights, w₁, read, rest) = >>=-eq-ok (query env (open_heights batch)) _ w h in
      go heights w₁ (query-ok env (open_heights batch) w read)
        (λ more w₂ q. backfill_loop-IsFilled fuel batch more w₂ p q) rest
    where
      go :
          (heights : List ℤ) (w₁ : World)
          → (open_heights batch w.database ≡ heights) × (w₁.database ≡ w.database)
          → ((more : ℕ) (w₂ : World)
              → backfill_loop env fuel batch more w₂ ≡ (ok n, w')
              → IsFilled w'.database)
          → fill_batch env (backfill_loop env fuel batch) done heights w₁ ≡ (ok n, w')
          → IsFilled w'.database
      go [] w₁ (none_open, same) ih e =
          subst IsFilled (sym same ∙ ap (λ (r : Result ℕ × World). r.1.database) e)
            (open_heights-eq-nil batch w.database p none_open)
      go (x ∷ xs) w₁ q ih e =
          let (_, w₂, _, more) = >>=-eq-ok (transaction env (fill env (x ∷ xs))) _ w₁ e in
          ih (done + length (x ∷ xs)) w₂ more

  -- When `backfill` returns, with batches of one block or more, no block is marked as pending and
  -- every block has soft facts.
  pub backfill-IsFilled :
      (fuel batch : ℕ) (w : World) {n : ℕ} {w' : World}
      → 1 ≤ batch
      → backfill env fuel batch w ≡ (ok n, w')
      → IsFilled w'.database
  unfolding backfill
  backfill-IsFilled fuel batch w p h = backfill_loop-IsFilled fuel batch 0 w p h
