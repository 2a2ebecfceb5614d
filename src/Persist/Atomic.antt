-- ===== src/Persist/Atomic.antt =====
-- work_persist.rs: what `persist_block` writes of a block.
use mathlib.Core.Path.{subst}
use block_ex.Prelude.{
  ◌≡◌, ◌⊎◌, inl, inr, refl, sym, ap, ◌∙◌, Bool, true, false, List, [], ◌∷◌, map, arith, length, All,
}
use block_ex.Prelude.Int.{ℤ}
use block_ex.Prelude.Order.{leb_ℤ}
use block_ex.Result.{Result, ok, err, running}
use block_ex.Db.{Db, BlockRow, TxRow}
use block_ex.Pipeline.{TxMsg}
use block_ex.World.{Env, World, M, continue, execute, transaction, lift, pure, ◌>>=◌}
use block_ex.World.Laws.{HasFailed, >>=-eq-ok, execute-ok, transaction-ok, database-transaction}
use block_ex.World.Rules.{Keeps, Keeps-bind, Keeps-pure, Keeps-execute}
use block_ex.Store.{
  add_block, add_tx, insert_block, insert_tx, refresh_confirmations, refresh_window, finalize_below,
  record_tip, evict_mempool_on_inclusion, update_block_confirmations_tx,
}
use block_ex.Checkpoint
use block_ex.Persist.Prepare.{PreparedTx}
use block_ex.Persist.{
  Config, block_row, tx_row, insert_txs, write_rest, write_block, mark_pending, pending_step,
  after_commit, persist_block, forget, soft_facts_step, confirmations_of,
}
use block_ex.Persist.Stored.{
  has_block, has_tx, IsStored, IsStored-same, has_block-add_block, has_tx-add_tx_self,
  has_tx-add_tx, Keeps-update, Keeps-write_rest,
}

-- Whatever an action that succeeds returns, it is this.
record Returns {A : Type 0} (b : A) (m : M A) : Type 0 where
  at : (w : World) {c : A} {w' : World} → m w ≡ (ok c, w') → c ≡ b

Returns-bind :
    {A B : Type 0} {b : B} (m : M A) (f : A → M B)
    → ((a : A) → Returns b (f a))
    → Returns b (m >>= f)
Returns-bind m f k = record { at = λ w h. let (a, w', _, e) = >>=-eq-ok m f w h in (k a).at w' e }

Returns-pure : {A : Type 0} (b : A) → Returns b (pure b)
Returns-pure b = record { at = λ w h. cc (ap (λ r. r.0) h) }

has_block-add_tx :
    (block : BlockRow) (t : TxRow) (d : Db) → has_block block (add_tx t d) ≡ has_block block d
unfolding add_tx
has_block-add_tx block t d = ground arith

module _ (env : Env) where
  -- What the loop over the transactions leaves when it succeeds.
  insert_txs-ok :
      (block : BlockRow) (txs : List PreparedTx) (w : World) {u : Unit {0}} {w' : World}
      → insert_txs env block txs w ≡ (ok u, w')
      → (has_block block w'.database ≡ has_block block w.database)
        × ((t : TxRow) → has_tx t w.database ≡ true → has_tx t w'.database ≡ true)
        × All (λ (t : TxRow). has_tx t w'.database ≡ true) (map (tx_row block) txs)
  unfolding insert_txs insert_tx
  insert_txs-ok block [] w h =
      let e = ap (λ (r : Result (Unit {0}) × World). r.1.database) h in
      (ap (has_block block) (sym e), λ t s. subst (λ d. has_tx t d ≡ true) e s, tt)
  insert_txs-ok block (tx ∷ txs) w {u} {w'} h =
      let (v, w₁, first, rest) =
        >>=-eq-ok (execute env (add_tx (tx_row block tx))) (λ _. insert_txs env block txs) w h in
      let e = execute-ok env (add_tx (tx_row block tx)) w first in
      let (same, more, all) = insert_txs-ok block txs w₁ rest in
      (
        same ∙ ap (has_block block) e ∙ has_block-add_tx block (tx_row block tx) w.database,
        λ t s. more t (
            subst (λ d. has_tx t d ≡ true) (sym e)
              (has_tx-add_tx t (tx_row block tx) w.database s)),
        (
          more (tx_row block tx) (
              subst (λ d. has_tx (tx_row block tx) d ≡ true) (sym e)
                (has_tx-add_tx_self block tx w.database)),
          all,
        ),
      )

  write_rest-Returns :
      (cfg : Config) (msg : TxMsg) (txs : List PreparedTx) (b : BlockRow)
      → Returns b (write_rest env cfg msg txs b)
  unfolding write_rest
  write_rest-Returns cfg msg txs b =
      Returns-bind (evict_mempool_on_inclusion env (map (λ tx. tx.hash_hex) txs)) _ λ _.
        Returns-bind (record_tip env b.height b.hash b.prev_hash) _ λ _.
          Returns-bind (soft_facts_step env cfg.do_analytics b.height) _ λ _.
            Returns-bind
              (update_block_confirmations_tx env b.height (confirmations_of msg.tip_height b.height)
                (leb_ℤ b.height msg.finalized_height))
              _ λ _. Returns-pure b

  pub write_block-ok :
      (cfg : Config) (msg : TxMsg) (txs : List PreparedTx) (w : World) {block : BlockRow}
      {w' : World}
      → write_block env cfg msg txs w ≡ (ok block, w')
      → (block_row env msg.header (length txs) ≡ ok block) × IsStored block txs w'.database
  unfolding write_block insert_block
  write_block-ok cfg msg txs w {block} {w'} h =
      let (b, w₁, made, h₁) = >>=-eq-ok (lift (block_row env msg.header (length txs))) _ w h in
      let (_, w₂, there, h₂) = >>=-eq-ok (execute env (add_block b)) _ w₁ h₁ in
      let (_, w₃, inserted, h₃) = >>=-eq-ok (insert_txs env b txs) _ w₂ h₂ in
      let (same, more, all) = insert_txs-ok b txs w₂ inserted in
      let stored : IsStored b txs w₃.database = record {
        block_there =
            same
            ∙ ap (has_block b) (execute-ok env (add_block b) w₁ there)
            ∙ has_block-add_block b w₁.database;
        txs_there = all;
      } in
      let e = (write_rest-Returns cfg msg txs b).at w₃ h₃ in
      (
        ap (λ r. r.0) made ∙ ap ok (sym e),
        subst (λ x. IsStored x txs w'.database) (sym e)
            (subst (λ (r : Result BlockRow × World). IsStored b txs r.1.database) h₃
              ((Keeps-write_rest env b txs cfg msg).at w₃ stored)),
      )

  Keeps-refresh_confirmations :
      (block : BlockRow) (txs : List PreparedTx) (start tip final : ℤ)
      → Keeps (IsStored block txs) (refresh_confirmations env start tip final)
  unfolding refresh_confirmations refresh_window finalize_below
  Keeps-refresh_confirmations block txs start tip final =
      Keeps-bind _ _ (Keeps-update env block txs _ _ (λ x. refl))
        λ _. Keeps-update env block txs _ _ (λ x. refl)

  Keeps-set :
      (block : BlockRow) (txs : List PreparedTx) (ingested final : ℤ)
      → Keeps (IsStored block txs) (Checkpoint.set env ingested final)
  unfolding Checkpoint.set Checkpoint.set_last_height Checkpoint.set_finalized_height
  Keeps-set block txs ingested final =
      Keeps-bind _ _ (Keeps-execute env _ (λ d. IsStored-same block txs d _ refl refl))
        λ _. Keeps-execute env _ (λ d. IsStored-same block txs d _ refl refl)

  Keeps-pending_step :
      (block : BlockRow) (txs : List PreparedTx) (a : Bool) (h : ℤ)
      → Keeps (IsStored block txs) (pending_step env a h)
  unfolding pending_step forget mark_pending
  Keeps-pending_step block txs true h = Keeps-pure tt
  Keeps-pending_step block txs false h = record {
    at = λ w s. (Keeps-update env block txs _ _ (λ x. refl)).at w s;
  }

  Keeps-after_commit :
      (block : BlockRow) (txs : List PreparedTx) (cfg : Config) (msg : TxMsg)
      → Keeps (IsStored block txs) (after_commit env cfg msg block)
  unfolding after_commit
  Keeps-after_commit block txs cfg msg =
      Keeps-bind _ _ (Keeps-pending_step block txs cfg.do_analytics block.height) λ _.
        Keeps-bind _ _ (Keeps-set block txs block.height msg.finalized_height)
          λ _. Keeps-refresh_confirmations block txs _ _ _

  -- Either the database is as it was, or the row of the header is stored and with it the rows of
  -- all its transactions, whatever fails and wherever.
  abbrev pub AllOrNothing : TxMsg → List PreparedTx → Db → Db → Type 0
  AllOrNothing msg txs d d' =
      (d' ≡ d)
      ⊎ ((block : BlockRow) × (block_row env msg.header (length txs) ≡ ok block)
          × IsStored block txs d')

  -- Whatever statement of `persist_block` fails, or none, the database is afterwards either as it
  -- was, or the row of the header is stored, or one that stands in its place, and so are the rows
  -- of all the transactions.
  pub persist_block-AllOrNothing :
      (cfg : Config) (msg : TxMsg) (txs : List PreparedTx) (w : World)
      → AllOrNothing msg txs w.database (persist_block env cfg msg txs w).1.database
  unfolding persist_block
  persist_block-AllOrNothing cfg msg txs w = go (transaction env body w) refl
    where
      body : M BlockRow
      body = write_block env cfg msg txs

      unchanged :
          HasFailed (transaction env body w).0 → (transaction env body w).1.database ≡ w.database
      unchanged = database-transaction env body w

      go :
          (r : Result BlockRow × World)
          → transaction env body w ≡ r
          → AllOrNothing msg txs w.database (continue r.0 (after_commit env cfg msg) r.1).1.database
      go (err e, w') p =
          inl (ap (λ r. r.1.database) (sym p) ∙ unchanged (subst (λ r. HasFailed r.0) (sym p) tt))
      go (running, w') p =
          inl (ap (λ r. r.1.database) (sym p) ∙ unchanged (subst (λ r. HasFailed r.0) (sym p) tt))
      go (ok block, w') p =
          let (w₀, w₁, before, ran, after) = transaction-ok env body w p in
          let (made, stored) = write_block-ok cfg msg txs w₀ ran in
          inr (
            block,
            made,
            (Keeps-after_commit block txs cfg msg).at w'
                (subst (IsStored block txs) (sym after) stored),
          )
