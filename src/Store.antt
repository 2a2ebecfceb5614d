-- ===== src/Store.antt =====
-- ingestor/src/store.rs: the statements of `Store`, over the tables of `Db`.
pub mod SoftFacts
pub mod Mempool
pub mod Confirmations
use block_ex.Prelude.{
  ℕ, ◌+◌, Bool, true, false, not, ◌&&◌, ◌||◌, Option, none, some, List, [], ◌∷◌, ◌++◌, map, String,
  Bytes, if◌then◌else◌, bytes_eq, keep, find, contains, update, upsert,
}
use block_ex.Prelude.Int.{ℤ, pos, ◌+ℤ◌, ◌-ℤ◌}
use block_ex.Prelude.Order.{leb_ℤ, eq_ℤ, min_ℤ, max_ℤ}
use block_ex.Result.{Result, ok, err, ok_or, db}
use block_ex.Result
use block_ex.Db.{Db, BlockRow, TxRow, InputRow, MempoolRow, TipRow}
use block_ex.World.{Env, World, M, query, execute, attempt, at_now, pure, ◌>>=◌, ◌>>◌}
use mathlib.Core.Option

abbrev pub eq_opt : Option ℤ → ℤ → Bool
eq_opt none h = false
eq_opt (some k) h = eq_ℤ k h

abbrev pub eq_times : Option ℤ → Option ℤ → Bool
eq_times none u = false
eq_times (some t) none = false
eq_times (some t) (some u) = eq_ℤ t u

-- The two unique constraints of public.blocks.
abbrev pub clashes : BlockRow → BlockRow → Bool
clashes new row =
    eq_ℤ row.block_timestamp new.block_timestamp
    && (eq_ℤ row.height new.height || bytes_eq row.hash new.hash)

unfoldable pub add_block : BlockRow → Db → Db
add_block row d =
    if contains (clashes row) d.blocks then d else record d { blocks = d.blocks ++ row ∷ [] }

-- The primary key of public.txs.
abbrev pub same_tx : TxRow → TxRow → Bool
same_tx new row =
    eq_times row.block_timestamp new.block_timestamp && bytes_eq row.tx_hash new.tx_hash

unfoldable pub add_tx : TxRow → Db → Db
add_tx row d = if contains (same_tx row) d.txs then d else record d { txs = d.txs ++ row ∷ [] }

-- The primary key of public.tx_inputs.
abbrev pub same_input : InputRow → InputRow → Bool
same_input new row = bytes_eq row.tx_hash new.tx_hash && eq_ℤ row.idx new.idx

-- The foreign key of a new row is the moment of time that the statement leaves at its default,
-- 'infinity', with the hash. No row of public.txs is at that moment, since each insert gives its own, so
-- only a row that is there already, and is left alone, is not refused.
unfoldable pub add_input : InputRow → Db → Result Db
add_input row d = if contains (same_input row) d.tx_inputs then ok d else err db

unfoldable pub put_tip : TipRow → Db → Db
put_tip row d = record d {
  chain_tips =
      upsert (λ r. eq_ℤ r.height row.height)
        (λ r. record r { hash = row.hash; prev_hash = row.prev_hash }) row d.chain_tips;
}

unfoldable pub set_confirmations : ℤ → ℤ → Bool → Db → Db
set_confirmations height confirmations is_final d = record d {
  blocks =
      update (λ b. eq_ℤ b.height height)
        (λ b. record b { confirmations = confirmations; is_final = is_final }) d.blocks;
}

-- The first statement of `refresh_confirmations`.
unfoldable pub refresh_window : ℤ → ℤ → ℤ → Db → Db
refresh_window start_h tip_h finalized_h d = record d {
  blocks =
      update (λ b. leb_ℤ start_h b.height && leb_ℤ b.height tip_h)
        (λ b. record b {
          confirmations = max_ℤ (tip_h -ℤ b.height +ℤ pos 1) (pos 0);
          is_final = leb_ℤ b.height finalized_h;
        })
        d.blocks;
}

-- Its second statement.
unfoldable pub finalize_below : ℤ → Db → Db
finalize_below finalized_h d = record d {
  blocks =
      update (λ b. leb_ℤ b.height finalized_h && not b.is_final) (λ b. record b { is_final = true })
        d.blocks;
}

unfoldable pub hash_at : ℤ → Db → Option Bytes
hash_at height d = Option.map (λ b. b.hash) (find (λ b. eq_ℤ b.height height) d.blocks)

unfoldable pub drop_mempool : Bytes → Db → Db
drop_mempool h d = record d { mempool_txs = keep (λ r. not (bytes_eq r.tx_hash h)) d.mempool_txs }

unfoldable pub see_mempool : ℕ → Bytes → Db → Db
see_mempool now h d = record d {
  mempool_txs =
      upsert (λ r. bytes_eq r.tx_hash h) (λ r. record r { last_seen = now })
        (record {
          tx_hash = h;
          first_seen = now;
          last_seen = now;
          fee_rate = none;
          relayed_by = none;
        })
        d.mempool_txs;
}

unfoldable pub delete_tips : ℤ → Db → Db
delete_tips fork d = record d { chain_tips = keep (λ r. not (leb_ℤ fork r.height)) d.chain_tips }

unfoldable pub delete_blocks : ℤ → Db → Db
delete_blocks fork d = record d { blocks = keep (λ b. not (leb_ℤ fork b.height)) d.blocks }

module _ (env : Env) where
  unfoldable pub insert_block : BlockRow → M (Unit {0})
  insert_block row = execute env (add_block row)

  unfoldable pub insert_tx : TxRow → M (Unit {0})
  insert_tx row = execute env (add_tx row)

  unfoldable pub insert_input : InputRow → M (Unit {0})
  insert_input row = attempt env (add_input row)

  -- The statement names a conflict target, (tx_hash, idx_in_tx), that no index of public.outputs has:
  -- the database refuses it, whatever the values.
  unfoldable pub insert_output : Bytes → ℤ → Bytes → Option ℤ → Bytes → Option ℤ → M (Unit {0})
  insert_output tx_hash idx_in_tx commitment amount stealth_pub global_index =
      attempt env (λ d. err db)

  unfoldable pub record_tip : ℤ → Bytes → Bytes → M (Unit {0})
  record_tip height hash prev_hash =
      execute env (put_tip (record { height = height; hash = hash; prev_hash = prev_hash }))

  unfoldable pub update_block_confirmations_tx : ℤ → ℤ → Bool → M (Unit {0})
  update_block_confirmations_tx height confirmations is_final =
      execute env (set_confirmations height confirmations is_final)

  unfoldable pub refresh_confirmations : ℤ → ℤ → ℤ → M (Unit {0})
  refresh_confirmations start_height tip_height finalized_height = do
    let start = max_ℤ (min_ℤ start_height tip_height) (pos 0)
    execute env (refresh_window start tip_height finalized_height)
    execute env (finalize_below finalized_height)

  unfoldable pub block_hash_at : ℤ → M (Option Bytes)
  block_hash_at height = query env (hash_at height)

  -- `decode($1,'hex')` fails on a text that is not hexadecimal.
  unfoldable pub with_decoded : String → (Bytes → Db → Db) → Db → Result Db
  with_decoded hash f d = Result.◌>>=◌ (ok_or db (env.decode hash)) (λ h. ok (f h d))

  unfoldable pub evict_mempool_on_inclusion : List String → M (Unit {0})
  evict_mempool_on_inclusion [] = pure tt
  evict_mempool_on_inclusion (hash ∷ rest) = do
    attempt env (with_decoded hash drop_mempool)
    evict_mempool_on_inclusion rest

  -- The loop over the rows of `requeue_mempool_from_block`.
  unfoldable pub requeue_rows : List String → M (Unit {0})
  requeue_rows [] = pure tt
  requeue_rows (hash ∷ rest) = do
    at_now (λ now. attempt env (with_decoded hash (see_mempool now)))
    requeue_rows rest

  unfoldable pub tx_hashes_at : ℤ → Db → List String
  tx_hashes_at height d =
      map (λ t. env.encode t.tx_hash) (keep (λ t. eq_opt t.block_height height) d.txs)

  unfoldable pub requeue_mempool_from_block : ℤ → M (Unit {0})
  unfolding requeue_rows
  requeue_mempool_from_block block_height = do
    rows ← query env (tx_hashes_at block_height)
    requeue_rows rows
