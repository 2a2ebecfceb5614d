-- ===== src/Persist/Stored.antt =====
-- work_persist.rs: what it is that a block is stored with its transactions, and the statements that
-- come after.
use block_ex.Prelude.{
  ℕ, ◌≡◌, inl, inr, refl, sym, ap, ◌∙◌, Bool, true, false, some, List, [], ◌∷◌, map, String, arith,
  contains, contains-update, contains-append, update, bytes_eq_refl, All, Bool-cases,
}
use mathlib.Core.Path.{subst}
use block_ex.Prelude.Int.{ℤ}
use block_ex.Prelude.Order.{eq_ℤ_refl}
use block_ex.Result.{ok}
use block_ex.Db.{Db, BlockRow, TxRow}
use block_ex.Pipeline.{TxMsg}
use block_ex.World.{Env, execute, attempt}
use block_ex.World.Rules.{
  Keeps, Keeps-bind, Keeps-pure, Keeps-execute, Keeps-attempt, Keeps-ReadsOnly, ReadsOnly-query,
}
use block_ex.Store.{
  clashes, same_tx, eq_times, add_block, add_tx, evict_mempool_on_inclusion, with_decoded,
  drop_mempool, record_tip, put_tip, update_block_confirmations_tx, set_confirmations,
}
use block_ex.Store.SoftFacts.{upsert_soft_facts_for_block, put_soft_facts, clear_pending}
use block_ex.Persist.Prepare.{PreparedTx}
use block_ex.Persist.{Config, tx_row, soft_facts_step, write_rest}

-- The table has a row for the block, or one that stands in its place.
abbrev pub has_block : BlockRow → Db → Bool
has_block row d = contains (clashes row) d.blocks

abbrev pub has_tx : TxRow → Db → Bool
has_tx row d = contains (same_tx row) d.txs

-- The block is stored with all its transactions.
pub record IsStored (block : BlockRow) (txs : List PreparedTx) (d : Db) : Type 0 where
  pub block_there : has_block block d ≡ true
  pub txs_there : All (λ (t : TxRow). has_tx t d ≡ true) (map (tx_row block) txs)

pub clashes_self : (row : BlockRow) → clashes row row ≡ true
clashes_self row = rw (eq_ℤ_refl row.height, eq_ℤ_refl row.block_timestamp) refl

pub has_block-add_block : (row : BlockRow) (d : Db) → has_block row (add_block row d) ≡ true
unfolding add_block contains
has_block-add_block row d = elim (Bool-cases (contains (clashes row) d.blocks)) [
  | inl e ↦ rw e e
  | inr e ↦ rw (e, contains-append (clashes row) d.blocks (row ∷ []), e, clashes_self row) refl
]

eq_times_self : (t : ℤ) → eq_times (some t) (some t) ≡ true
eq_times_self t = eq_ℤ_refl t

pub has_tx-add_tx_self :
    (block : BlockRow) (t : PreparedTx) (d : Db)
    → has_tx (tx_row block t) (add_tx (tx_row block t) d) ≡ true
unfolding add_tx contains tx_row
has_tx-add_tx_self block t d =
    let row = tx_row block t in
    elim (Bool-cases (contains (same_tx row) d.txs)) [
      | inl e ↦ rw e e
      | inr e ↦
          rw
            (
              e,
              contains-append (same_tx row) d.txs (row ∷ []),
              e,
              eq_ℤ_refl block.block_timestamp,
              bytes_eq_refl t.hash,
            )
            refl
    ]

pub has_tx-add_tx : (t row : TxRow) (d : Db) → has_tx t d ≡ true → has_tx t (add_tx row d) ≡ true
unfolding add_tx
has_tx-add_tx t row d h = elim (Bool-cases (contains (same_tx row) d.txs)) [
  | inl e ↦ rw e h
  | inr e ↦ rw (e, contains-append (same_tx t) d.txs (row ∷ []), h) refl
]

-- The statements behind the inserts leave what the two tests read.
pub IsStored-same :
    (block : BlockRow) (txs : List PreparedTx) (d d' : Db)
    → has_block block d' ≡ has_block block d
    → d'.txs ≡ d.txs
    → IsStored block txs d
    → IsStored block txs d'
IsStored-same block txs d d' b t s = record {
  block_there = b ∙ s.block_there;
  txs_there =
      subst (λ rows. All (λ (x : TxRow). contains (same_tx x) rows ≡ true) (map (tx_row block) txs))
        (sym t) s.txs_there;
}

-- An update that leaves the columns of the unique constraints leaves the test.
has_block-update :
    (block : BlockRow) (p : BlockRow → Bool) (f : BlockRow → BlockRow) (rows : List BlockRow)
    → ((x : BlockRow) → clashes block (f x) ≡ clashes block x)
    → contains (clashes block) (update p f rows) ≡ contains (clashes block) rows
has_block-update block p f rows same = contains-update (clashes block) p f rows same

put_soft_facts-same :
    (h : ℤ) (ts : List TxRow) (c : ℕ) (d d' : Db)
    → put_soft_facts h ts c d ≡ ok d'
    → (d'.blocks ≡ d.blocks) × (d'.txs ≡ d.txs)
unfolding put_soft_facts
put_soft_facts-same h ts c d d' e = (ground arith, ground arith)

with_decoded-same :
    (env : Env) (hash : String) (d d' : Db)
    → with_decoded env hash drop_mempool d ≡ ok d'
    → (d'.blocks ≡ d.blocks) × (d'.txs ≡ d.txs)
unfolding with_decoded drop_mempool
with_decoded-same env hash d d' e = (ground arith, ground arith)

module _ (env : Env) (block : BlockRow) (txs : List PreparedTx) where
  pub Keeps-update :
      (p : BlockRow → Bool) (f : BlockRow → BlockRow)
      → ((x : BlockRow) → clashes block (f x) ≡ clashes block x)
      → Keeps (IsStored block txs) (execute env (λ d. record d { blocks = update p f d.blocks }))
  Keeps-update p f same =
      Keeps-execute env (λ d. record d { blocks = update p f d.blocks })
        (λ d. IsStored-same block txs d _ (has_block-update block p f d.blocks same) refl)

  Keeps-evict : (hs : List String) → Keeps (IsStored block txs) (evict_mempool_on_inclusion env hs)
  unfolding evict_mempool_on_inclusion
  Keeps-evict [] = Keeps-pure tt
  Keeps-evict (h ∷ hs) =
      Keeps-bind (attempt env (with_decoded env h drop_mempool))
        (λ _. evict_mempool_on_inclusion env hs)
        (Keeps-attempt env (with_decoded env h drop_mempool) (λ d d' e s.
          let (b, t) = with_decoded-same env h d d' e in
          IsStored-same block txs d d' (ap (contains (clashes block)) b) t s))
        (λ _. Keeps-evict hs)

  Keeps-soft_facts : (a : Bool) (h : ℤ) → Keeps (IsStored block txs) (soft_facts_step env a h)
  unfolding soft_facts_step upsert_soft_facts_for_block clear_pending
  Keeps-soft_facts false h = Keeps-pure tt
  Keeps-soft_facts true h = Keeps-bind _ _ (Keeps-ReadsOnly _ (ReadsOnly-query env _)) λ rec.
      Keeps-bind _ _ (Keeps-ReadsOnly _ (ReadsOnly-query env _)) λ c.
        Keeps-bind _ _
          (Keeps-attempt env (put_soft_facts h rec c) (λ d d' e s.
            let (b, t) = put_soft_facts-same h rec c d d' e in
            IsStored-same block txs d d' (ap (contains (clashes block)) b) t s))
          (λ _. Keeps-update _ _ (λ x. refl))

  pub Keeps-write_rest :
      (cfg : Config) (msg : TxMsg) → Keeps (IsStored block txs) (write_rest env cfg msg txs block)
  unfolding write_rest record_tip put_tip update_block_confirmations_tx set_confirmations
  Keeps-write_rest cfg msg = Keeps-bind _ _ (Keeps-evict _) λ _.
      Keeps-bind _ _ (Keeps-execute env _ (λ d. IsStored-same block txs d _ refl refl)) λ _.
        Keeps-bind _ _ (Keeps-soft_facts cfg.do_analytics block.height)
          λ _. Keeps-bind _ _ (Keeps-update _ _ (λ x. refl)) λ _. Keeps-pure block
