-- ===== src/Persist/Progress.antt =====
-- work_persist.rs: the checkpoint after `persist_block`.
use mathlib.Core.Path.{subst}
use block_ex.Prelude.{◌≡◌, sym, ap, ◌∙◌, some, List, arith}
use block_ex.Prelude.Int.{ℤ}
use block_ex.Result.{Result, ok}
use block_ex.Db.{Db, BlockRow}
use block_ex.Pipeline.{TxMsg}
use block_ex.World.{Env, World, execute, transaction}
use block_ex.World.Laws.{>>=-eq-ok, execute-ok, transaction-ok}
use block_ex.World.Rules.{Keeps, Keeps-bind, Keeps-execute}
use block_ex.Store.{refresh_confirmations, refresh_window, finalize_below}
use block_ex.Checkpoint
use block_ex.Persist.Prepare.{PreparedTx}
use block_ex.Persist.{Config, block_row, write_block, pending_step, after_commit, persist_block}
use block_ex.Persist.Atomic.{write_block-ok}
use block_ex.Prelude.{length}

-- The stored checkpoint has these two heights.
abbrev pub IsCheckpoint : ℤ → ℤ → Db → Type 0
IsCheckpoint ingested final d =
    d.ingestor_checkpoint ≡ some (record { last_height = ingested; finalized_height = final })

IsCheckpoint-set :
    (ingested final : ℤ) (d : Db)
    → IsCheckpoint ingested final
        (Checkpoint.set_finalized_height final (Checkpoint.set_last_height ingested d))
unfolding Checkpoint.set_last_height Checkpoint.set_finalized_height
IsCheckpoint-set ingested final d = ground arith

module _ (env : Env) where
  set-IsCheckpoint :
      (ingested final : ℤ) (w : World) {u : Unit {0}} {w' : World}
      → Checkpoint.set env ingested final w ≡ (ok u, w')
      → IsCheckpoint ingested final w'.database
  unfolding Checkpoint.set
  set-IsCheckpoint ingested final w {u} {w'} h =
      let (_, w₁, first, rest) =
        >>=-eq-ok (execute env (Checkpoint.set_last_height ingested)) _ w h in
      subst (IsCheckpoint ingested final)
        (sym (
          execute-ok env (Checkpoint.set_finalized_height final) w₁ rest
          ∙ ap (Checkpoint.set_finalized_height final)
              (execute-ok env (Checkpoint.set_last_height ingested) w first)))
        (IsCheckpoint-set ingested final w.database)

  Keeps-refresh_confirmations :
      (start tip final h f : ℤ)
      → Keeps (IsCheckpoint h f) (refresh_confirmations env start tip final)
  unfolding refresh_confirmations refresh_window finalize_below
  Keeps-refresh_confirmations start tip final h f =
      Keeps-bind _ _ (Keeps-execute env _ (λ d s. s)) λ _. Keeps-execute env _ (λ d s. s)

  after_commit-IsCheckpoint :
      (cfg : Config) (msg : TxMsg) (block : BlockRow) (w : World) {u : Unit {0}} {w' : World}
      → after_commit env cfg msg block w ≡ (ok u, w')
      → IsCheckpoint block.height msg.finalized_height w'.database
  unfolding after_commit
  after_commit-IsCheckpoint cfg msg block w {u} {w'} h =
      let (_, w₁, _, h₁) = >>=-eq-ok (pending_step env cfg.do_analytics block.height) _ w h in
      let (_, w₂, moved, h₂) =
        >>=-eq-ok (Checkpoint.set env block.height msg.finalized_height) _ w₁ h₁ in
      subst
        (λ (r : Result (Unit {0}) × World).
          IsCheckpoint block.height msg.finalized_height r.1.database)
        h₂
        ((Keeps-refresh_confirmations _ _ _ block.height msg.finalized_height).at w₂
          (set-IsCheckpoint block.height msg.finalized_height w₁ moved))

  -- When `persist_block` succeeds, the checkpoint is the height of the row that it made from the
  -- header, with the finalized height of the message.
  pub persist_block-IsCheckpoint :
      (cfg : Config) (msg : TxMsg) (txs : List PreparedTx) (w : World) {u : Unit {0}} {w' : World}
      → persist_block env cfg msg txs w ≡ (ok u, w')
      → (block : BlockRow) × (block_row env msg.header (length txs) ≡ ok block)
        × IsCheckpoint block.height msg.finalized_height w'.database
  unfolding persist_block
  persist_block-IsCheckpoint cfg msg txs w h =
      let (block, w₁, committed, rest) =
        >>=-eq-ok (transaction env (write_block env cfg msg txs)) _ w h in
      let (w₀, _, _, ran, _) = transaction-ok env (write_block env cfg msg txs) w committed in
      (
        block,
        (write_block-ok env cfg msg txs w₀ ran).0,
        after_commit-IsCheckpoint cfg msg block w₁ rest,
      )
