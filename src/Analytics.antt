-- ===== src/Analytics.antt =====
-- ingestor/src/analytics.rs: the backfill of soft facts for blocks that were written without them.
pub mod Done
pub mod Ends
pub mod Flags
use mathlib.Core.Option
use block_ex.Prelude.{
  ℕ, zero, suc, ◌+◌, not, ◌||◌, Bool, true, false, List, [], ◌∷◌, map, length, take, keep, contains,
  if◌then◌else◌,
}
use block_ex.Prelude.Int.{ℤ}
use block_ex.Prelude.Order.{leb_ℤ, eq_ℤ}
use block_ex.Result.{Result, ok, running}
use block_ex.Db.{Db, BlockRow}
use block_ex.World.{Env, World, M, query, execute, transaction, pure, lift, ◌>>=◌, ◌>>◌}
use block_ex.Store.SoftFacts.{clear_pending, upsert_soft_facts_for_block}

abbrev pub has_facts : Db → BlockRow → Bool
has_facts d b = contains (λ s. eq_ℤ s.block_height b.height) d.soft_facts

-- `WHERE`, after the outer join, in which a block has one row: soft_facts has one for each height.
abbrev pub is_open : Db → BlockRow → Bool
is_open d b = b.analytics_pending || not (has_facts d b)

-- `ORDER BY`
unfoldable pub insert_height : ℤ → List ℤ → List ℤ
insert_height h [] = h ∷ []
insert_height h (k ∷ ks) =
    let rest = insert_height h ks in if leb_ℤ h k then h ∷ k ∷ ks else k ∷ rest

unfoldable pub sort_heights : List ℤ → List ℤ
unfolding insert_height
sort_heights [] = []
sort_heights (h ∷ hs) = insert_height h (sort_heights hs)

unfoldable pub open_heights : ℕ → Db → List ℤ
open_heights batch d = take batch (sort_heights (map (λ b. b.height) (keep (is_open d) d.blocks)))

module _ (env : Env) where
  -- The body of the transaction.
  unfoldable pub fill : List ℤ → M (Unit {0})
  fill [] = pure tt
  fill (h ∷ hs) = do upsert_soft_facts_for_block env h; execute env (clear_pending h); fill hs

  -- What follows the query of a round.
  unfoldable pub fill_batch : (ℕ → M ℕ) → ℕ → List ℤ → M ℕ
  unfolding fill
  fill_batch again done [] = pure done
  fill_batch again done (h ∷ hs) = do
    _ ← transaction env (fill (h ∷ hs))
    again (done + length (h ∷ hs))

  unfoldable pub backfill_loop : ℕ → ℕ → ℕ → M ℕ
  unfolding fill_batch
  backfill_loop zero batch done = lift running
  backfill_loop (suc fuel) batch done = do
    heights ← query env (open_heights batch)
    fill_batch (backfill_loop fuel batch) done heights

  -- The loop goes on until a query finds nothing: `fuel` bounds its rounds.
  unfoldable pub backfill : ℕ → ℕ → M ℕ
  backfill fuel batch = backfill_loop fuel batch 0
