-- ===== src/Store/SoftFacts.antt =====
-- ingestor/src/store.rs, `upsert_soft_facts_for_block`: the aggregates of a block's transactions.
-- The doubles are kept as the exact quotients that the database rounds.
use block_ex.Prelude.{
  ℕ, ◌+◌, ◌-◌, ◌*◌, ◌/◌, ◌%◌, ◌==◌, Bool, false, none, some, List, [], ◌∷◌, map, get_or, length,
  ltb, if◌then◌else◌, keep, update, upsert,
}
use block_ex.Prelude.Int.{ℤ, pos, ◌+ℤ◌, ◌*ℤ◌}
use block_ex.Prelude.Order.{leb_ℤ, eq_ℤ}
use block_ex.Result.{Result, ok, err, db}
use block_ex.Db.{Db, BlockRow, TxRow, Ratio, SoftFactsRow}
use block_ex.World.{Env, M, query, execute, attempt, ◌>>=◌, ◌>>◌}

abbrev in_block : ℤ → TxRow → Bool
in_block height t = elim t.block_height [ none ↦ false | some h ↦ eq_ℤ h height ]

unfoldable pub txs_at : ℤ → Db → List TxRow
txs_at height d = keep (in_block height) d.txs

-- `COALESCE(fee_nanos,0)`
abbrev pub fee_of : TxRow → ℤ
fee_of t = elim t.fee_nanos [ none ↦ pos 0 | some fee ↦ fee ]

-- `SUM(fee)`, and 0 of no rows.
unfoldable pub total_fee : List TxRow → ℤ
total_fee [] = pos 0
total_fee (t ∷ ts) = fee_of t +ℤ total_fee ts

-- `SUM(num_inputs)`
unfoldable pub sum_inputs : List TxRow → ℕ
sum_inputs [] = 0
sum_inputs (t ∷ ts) = t.num_inputs + sum_inputs ts

-- `AVG(NULLIF(num_inputs,0))`, and 0 where no row counts.
unfoldable pub avg_inputs : List TxRow → Ratio
unfolding sum_inputs
avg_inputs ts =
    let counted = length (keep (λ t. ltb 0 t.num_inputs) ts) in
    record { num = pos (sum_inputs ts); den = if counted == 0 then 1 else counted }

-- `fee_rate` of the rows that have one.
unfoldable pub fee_rates : List TxRow → List Ratio
fee_rates ts =
    map (λ t. record { num = fee_of t; den = t.size_bytes }) (keep (λ t. ltb 0 t.size_bytes) ts)

abbrev pub leb_ratio : Ratio → Ratio → Bool
leb_ratio a b = leb_ℤ (a.num *ℤ pos b.den) (b.num *ℤ pos a.den)

-- `ORDER BY fee_rate`
pub insert_rate : Ratio → List Ratio → List Ratio
insert_rate r [] = r ∷ []
insert_rate r (x ∷ xs) =
    let rest = insert_rate r xs in if leb_ratio r x then r ∷ x ∷ xs else x ∷ rest

unfoldable pub sort_rates : List Ratio → List Ratio
unfolding insert_rate
sort_rates [] = []
sort_rates (r ∷ rs) = insert_rate r (sort_rates rs)

abbrev pub no_rate : Ratio
no_rate = record { num = pos 0; den = 1 }

-- `PERCENTILE_CONT(0.5)`: the middle rate, or half way between the two in the middle; 0 of none.
unfoldable pub median_rate : List Ratio → Ratio
unfolding sort_rates
median_rate rates =
    let sorted = sort_rates rates in
    let n = length rates in
    let hi = get_or sorted (n / 2) no_rate in
    let lo = get_or sorted (n / 2 - 1) no_rate in
    if n == 0
    then no_rate
    else if n % 2 == 1
    then hi
    else record { num = lo.num *ℤ pos hi.den +ℤ hi.num *ℤ pos lo.den; den = 2 * lo.den * hi.den }

abbrev pub soft_facts_row : BlockRow → List TxRow → ℕ → SoftFactsRow
soft_facts_row b ts clsag_count = record {
  block_height = b.height;
  block_timestamp = b.block_timestamp;
  total_fee = total_fee ts;
  avg_ring_size = avg_inputs ts;
  median_fee_rate = median_rate (fee_rates ts);
  bp_total_bytes = pos 0;
  clsag_count = clsag_count;
}

-- The row of public.soft_facts for the rows of public.blocks at the height.
abbrev pub put_for : ℤ → List TxRow → ℕ → Db → List BlockRow → Result Db
put_for height ts clsag_count d [] = ok d
put_for height ts clsag_count d (b ∷ []) = ok (record d {
  soft_facts =
      upsert (λ r. eq_ℤ r.block_height height)
        (λ r. record (soft_facts_row b ts clsag_count) { block_timestamp = r.block_timestamp })
        (soft_facts_row b ts clsag_count) d.soft_facts;
})
put_for height ts clsag_count d (_ ∷ _ ∷ _) = err db

-- The statement writes one row for each row of public.blocks at the height, and fails where two of
-- them would write the same one.
unfoldable pub put_soft_facts : ℤ → List TxRow → ℕ → Db → Result Db
put_soft_facts height ts clsag_count d =
    put_for height ts clsag_count d (keep (λ (b : BlockRow). eq_ℤ b.height height) d.blocks)

unfoldable pub clear_pending : ℤ → Db → Db
clear_pending height d = record d {
  blocks =
      update (λ b. eq_ℤ b.height height) (λ b. record b { analytics_pending = false }) d.blocks;
}

module _ (env : Env) where
  unfoldable pub upsert_soft_facts_for_block : ℤ → M (Unit {0})
  unfolding txs_at sum_inputs
  upsert_soft_facts_for_block height = do
    rec ← query env (txs_at height)
    clsag_count ← query env (λ d. sum_inputs (txs_at height d))
    attempt env (put_soft_facts height rec clsag_count)
    execute env (clear_pending height)
