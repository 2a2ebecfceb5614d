-- ===== src/Analytics/Ends.antt =====
-- Why `backfill` of analytics.rs comes to an end: each round closes a block for good.
use block_ex.Analytics.Done.{IsFilled, backfill-IsFilled}
use mathlib.Core.Path.{subst}
use block_ex.Prelude.{
  ℕ, zero, suc, ◌+◌, ◌≤◌, ◌<◌, ◌≡◌, refl, sym, ap, ◌∙◌, ◌&&◌, ◌||◌, not, Bool, true, Bool-cases,
  inl, inr, List, [], ◌∷◌, map, length, take, keep, contains, arith,
}
use block_ex.Prelude.Int.{ℤ}
use block_ex.Prelude.Order.{eq_ℤ}
use block_ex.Result.{Result, ok, err, running}
use block_ex.Db.{Db, BlockRow, SoftFactsRow, TxRow}
use block_ex.World.{Env, World, M, continue, ◌>>=◌, query, transaction, execute, attempt, pure}
use block_ex.World.Rules.{
  HasEnded, Ends, Ends-bind, Ends-pure, Ends-query, Ends-attempt, Ends-execute, Ends-transaction,
}
use block_ex.World.Laws.{>>=-eq-ok, query-ok, execute-ok, attempt-ok, transaction-ok}
use block_ex.Store.SoftFacts.{
  put_soft_facts, put_for, clear_pending, upsert_soft_facts_for_block, txs_at, sum_inputs,
}
use block_ex.Analytics.{
  is_open, insert_height, sort_heights, open_heights, fill, fill_batch, backfill_loop, backfill,
}
use block_ex.Analytics.Flags.{
  flags_of, flags, close, opens, opens_bounds, opens-close, opens-close_open, closed,
}

module _ (env : Env) where
  upsert-close :
      (h : ℤ) (w : World) {u : Unit {0}} {w' : World}
      → upsert_soft_facts_for_block env h w ≡ (ok u, w')
      → (flags (clear_pending h w'.database) ≡ map (close h) (flags w.database))
  unfolding upsert_soft_facts_for_block clear_pending
  upsert-close h w {u} {w'} e =
      let (rec, w₁, read₁, e₁) = >>=-eq-ok (query env (txs_at h)) _ w e in
      let (n, w₂, read₂, e₂) = >>=-eq-ok (query env (λ d. sum_inputs (txs_at h d))) _ w₁ e₁ in
      let (_, w₃, put, e₃) = >>=-eq-ok (attempt env (put_soft_facts h rec n)) _ w₂ e₂ in
      let same : w₂.database ≡ w.database =
        (query-ok env (λ d. sum_inputs (txs_at h d)) w₁ read₂).1
        ∙ (query-ok env (txs_at h) w read₁).1 in
      let put_there : put_soft_facts h rec n w.database ≡ ok w₃.database =
        rw same at (attempt-ok env (put_soft_facts h rec n) w₂ put) in
      ap (λ d. flags (clear_pending h d)) (execute-ok env (clear_pending h) w₃ e₃)
      ∙ closed h rec n w.database w₃.database put_there

  fill-close :
      (h : ℤ) (hs : List ℤ) (w : World) {u : Unit {0}} {w' : World}
      → fill env (h ∷ hs) w ≡ (ok u, w')
      → (w₂ : World) × (flags w₂.database ≡ map (close h) (flags w.database))
        × (fill env hs w₂ ≡ (ok u, w'))
  unfolding fill
  fill-close h hs w e =
      let (_, w₁, put, e₁) = >>=-eq-ok (upsert_soft_facts_for_block env h) _ w e in
      let (_, w₂, cleared, e₂) = >>=-eq-ok (execute env (clear_pending h)) _ w₁ e₁ in
      (w₂, ap flags (execute-ok env (clear_pending h) w₁ cleared) ∙ upsert-close h w put, e₂)

  -- A round opens no block, and closes those of its first height.
  fill-opens :
      (hs : List ℤ) (w : World) {u : Unit {0}} {w' : World}
      → fill env hs w ≡ (ok u, w')
      → opens (flags w'.database) ≤ opens (flags w.database)
  fill-opens [] w {u} {w'} e =
      let stays : pure tt w ≡ (ok u, w') = unfold fill in e in
      let same : w ≡ w' = ap (λ (r : Result (Unit {0}) × World). r.1) stays in
      subst (λ (v : World). opens (flags v.database) ≤ opens (flags w.database)) same (omega arith)
  fill-opens (h ∷ hs) w e =
      let (w₂, closes, rest) = fill-close h hs w e in
      omega (arith, fill-opens hs w₂ rest, ap opens closes, opens-close h (flags w.database))

  fill-closes :
      (h : ℤ) (hs : List ℤ) (w : World) {u : Unit {0}} {w' : World}
      → contains (λ (f : ℤ × Bool). eq_ℤ f.0 h && f.1) (flags w.database) ≡ true
      → fill env (h ∷ hs) w ≡ (ok u, w')
      → opens (flags w'.database) < opens (flags w.database)
  fill-closes h hs w there e =
      let (w₂, closes, rest) = fill-close h hs w e in
      omega
        (arith, fill-opens hs w₂ rest, ap opens closes, opens-close_open h (flags w.database) there)

contains-insert_height :
    (p : ℤ → Bool) (h : ℤ) (ks : List ℤ) → contains p (insert_height h ks) ≡ (p h || contains p ks)
unfolding insert_height contains
contains-insert_height p h [] = refl
contains-insert_height p h (k ∷ ks) = ground (arith, contains-insert_height p h ks)

contains-sort_heights : (p : ℤ → Bool) (hs : List ℤ) → contains p (sort_heights hs) ≡ contains p hs
unfolding sort_heights contains
contains-sort_heights p [] = refl
contains-sort_heights p (h ∷ hs) =
    contains-insert_height p h (sort_heights hs) ∙ ap (λ b. p h || b) (contains-sort_heights p hs)

contains-take :
    (p : ℤ → Bool) (n : ℕ) (hs : List ℤ) → contains p (take n hs) ≡ true → contains p hs ≡ true
unfolding contains
contains-take p zero hs e = absurd (cc e)
contains-take p (suc n) [] e = absurd (cc e)
contains-take p (suc n) (h ∷ hs) e = ground (arith, contains-take p n hs)

contains-flags :
    (h : ℤ) (facts : List SoftFactsRow) (p : BlockRow → Bool) (bs : List BlockRow)
    → ((b : BlockRow)
        → p b ≡ (b.analytics_pending || not (contains (λ s. eq_ℤ s.block_height b.height) facts)))
    → contains (λ x. eq_ℤ x h) (map (λ b. b.height) (keep p bs)) ≡ true
    → contains (λ (f : ℤ × Bool). eq_ℤ f.0 h && f.1) (flags_of facts bs) ≡ true
unfolding contains keep
contains-flags h facts p [] is e = absurd (cc e)
contains-flags h facts p (b ∷ bs) is e = elim (Bool-cases (p b)) [
  | inl q ↦
      let k = rw q at e in rw (sym (is b) ∙ q) (ground (arith, contains-flags h facts p bs is))
  | inr q ↦
      let k = rw q at e in rw (sym (is b) ∙ q) (ground (arith, contains-flags h facts p bs is))
]

open_heights-flags :
    (batch : ℕ) (d : Db) (h : ℤ) (hs : List ℤ)
    → open_heights batch d ≡ h ∷ hs
    → contains (λ (f : ℤ × Bool). eq_ℤ f.0 h && f.1) (flags d) ≡ true
unfolding open_heights
open_heights-flags batch d h hs e =
    contains-flags h d.soft_facts (is_open d) d.blocks (λ b. refl)
      (sym (contains-sort_heights (at h) _)
        ∙ contains-take (at h) batch _ (ap (contains (at h)) e ∙ unfold contains in ground arith))
  where
    at : ℤ → ℤ → Bool
    at h x = eq_ℤ x h

put_soft_facts-HasEnded :
    (h : ℤ) (ts : List TxRow) (n : ℕ) (d : Db) → HasEnded (put_soft_facts h ts n d)
unfolding put_soft_facts
put_soft_facts-HasEnded h ts n d = go (keep (λ (b : BlockRow). eq_ℤ b.height h) d.blocks)
  where
    go : (kept : List BlockRow) → HasEnded (put_for h ts n d kept)
    go [] = tt
    go (b ∷ []) = tt
    go (b ∷ c ∷ more) = tt

HasEnded-bind {ℓ} :
    {A B : Type ℓ} (m : M A) (f : A → M B) (w : World)
    → HasEnded (m w).0
    → ((a : A) (w' : World) → m w ≡ (ok a, w') → HasEnded (f a w').0)
    → HasEnded ((m >>= f) w).0
HasEnded-bind {A} m f w e k = go (m w) refl e
  where
    go : (r : Result A × World) → m w ≡ r → HasEnded r.0 → HasEnded (continue r.0 f r.1).0
    go (ok a, w') q e = k a w' q
    go (err x, w') q e = tt
    go (running, w') q e = e

module _ (env : Env) where
  Ends-fill : (hs : List ℤ) → Ends (fill env hs)
  unfolding fill upsert_soft_facts_for_block
  Ends-fill [] = Ends-pure tt
  Ends-fill (h ∷ hs) =
      Ends-bind _ _
        (Ends-bind _ _ (Ends-query env _) λ rec. Ends-bind _ _ (Ends-query env _) λ n.
          Ends-bind _ _
            (Ends-attempt env (put_soft_facts h rec n) (put_soft_facts-HasEnded h rec n))
            λ _. Ends-execute env _)
        (λ _. Ends-bind _ _ (Ends-execute env _) (λ _. Ends-fill hs))

  backfill_loop-HasEnded :
      (fuel batch done : ℕ) (w : World)
      → opens (flags w.database) < fuel
      → HasEnded (backfill_loop env fuel batch done w).0
  unfolding backfill_loop fill_batch
  backfill_loop-HasEnded zero batch done w p = absurd (omega arith)
  backfill_loop-HasEnded (suc fuel) batch done w p =
      HasEnded-bind (query env (open_heights batch)) _ w
        ((Ends-query env (open_heights batch)).at w)
        (λ heights w₁ read.
          let (is, same) = query-ok env (open_heights batch) w read in
          round (λ more w₂ q. backfill_loop-HasEnded fuel batch more w₂ q) heights w₁ is same)
    where
      round :
          ((more : ℕ) (w₂ : World)
            → opens (flags w₂.database) < fuel
            → HasEnded (backfill_loop env fuel batch more w₂).0)
          → (heights : List ℤ) (w₁ : World) → open_heights batch w.database ≡ heights
          → w₁.database ≡ w.database
          → HasEnded (fill_batch env (λ n. backfill_loop env fuel batch n) done heights w₁).0
      round again [] w₁ is same = tt
      round again (h ∷ hs) w₁ is same =
          HasEnded-bind (transaction env (fill env (h ∷ hs))) _ w₁
            ((Ends-transaction env _ (Ends-fill (h ∷ hs))).at w₁)
            (λ _ w₂ committed.
              let (v₀, v₁, before, ran, after) =
                transaction-ok env (fill env (h ∷ hs)) w₁ committed in
              let there = open_heights-flags batch w.database h hs is in
              again (done + length (h ∷ hs)) w₂ (
                omega (
                  arith,
                  fill-closes env h hs v₀ (rw (before, same) there) ran,
                  ap (λ d. opens (flags d)) after,
                  ap (λ d. opens (flags d)) (before ∙ same),
                )))

  pub backfill_total :
      (fuel batch : ℕ) (w : World)
      → length w.database.blocks < fuel
      → HasEnded (backfill env fuel batch w).0
  unfolding backfill
  backfill_total fuel batch w p =
      backfill_loop-HasEnded fuel batch 0 w
        (omega (arith, opens_bounds w.database.soft_facts w.database.blocks))

  -- The backfill has ended, and if it returned, no block is open.
  abbrev pub Fills : Result ℕ × World → Type 0
  Fills (ok n, w) = IsFilled w.database
  Fills (err e, w) = Unit
  Fills (running, w) = ⊥

  -- With batches of one block or more, and a round for each block and one more, a backfill comes to an
  -- end, whatever statements fail, and unless it ends with an error, no block is then marked as pending
  -- and every block has soft facts.
  pub backfill-Fills :
      (fuel batch : ℕ) (w : World)
      → 1 ≤ batch
      → length w.database.blocks < fuel
      → Fills (backfill env fuel batch w)
  backfill-Fills fuel batch w some_in enough =
      go (backfill env fuel batch w) refl (backfill_total fuel batch w enough)
    where
      go :
          (x : Result ℕ × World)
          → backfill env fuel batch w ≡ x
          → HasEnded (backfill env fuel batch w).0
          → Fills x
      go (ok n, w') e over = backfill-IsFilled env fuel batch w some_in e
      go (err q, w') e over = tt
      go (running, w') e over = subst (λ r. HasEnded r.0) e over
