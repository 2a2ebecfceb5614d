-- ===== src/System/Restart.antt =====
-- bin/ingestor.rs: where a run goes on after one that was stopped.
use mathlib.Core.Path.{subst}
use block_ex.Prelude.{ℕ, ◌≡◌, sym, ◌∙◌, false, none, List, [], ◌∷◌, ◌++◌, arith, length}
use block_ex.Prelude.Int.{ℤ, pos, ◌+ℤ◌, ◌≤ℤ◌, int_laws}
use block_ex.Result.{ok}
use block_ex.External.{Json}
use block_ex.Pipeline.{SchedMsg, TxMsg}
use block_ex.World.{Env, World, query}
use block_ex.Header.{HeaderFetcher}
use block_ex.Header.Ranges.{AnswersHeight}
use block_ex.Sched.{first_height}
use block_ex.Checkpoint
use block_ex.Persist.{persist_block}
use block_ex.Persist.Prepare.{Decoders, PreparedTx}
use block_ex.Persist.Height.{block_row-height}
use block_ex.Persist.Progress.{IsCheckpoint, persist_block-IsCheckpoint}
use block_ex.Prelude.Counts.{count}
use block_ex.System.Accounting.{not_written}
use block_ex.System.{Settings}
use block_ex.System.Tasks.{BlockWorker, busy, State}
use block_ex.System.Turns.{Reach}
use block_ex.System.Headed.{AreHeaded, Reach-AreHeaded, is_pos}

module _ (env : Env) (json : Json) (dec : Decoders json) (cfg : Settings)
    (answers : AnswersHeight env) where
  -- The checkpoint after a turn of the persister is the height of its message.
  persist-IsCheckpoint :
      (start : ℤ) (w₀ : World) {s : State} (x : TxMsg) (rest : List TxMsg)
      (prepared : List PreparedTx) {w : World}
      → Reach env json dec cfg start w₀ s
      → s.txs ≡ x ∷ rest
      → persist_block env cfg.persister x prepared s.world ≡ (ok tt, w)
      → IsCheckpoint x.height x.finalized_height w.database
  persist-IsCheckpoint start w₀ {s} x rest prepared {w} r there done =
      let (p, _) = rw there at (a.txs) in
      let (block, made, moved) =
        persist_block-IsCheckpoint env cfg.persister x prepared s.world done in
      subst (λ k. IsCheckpoint k x.finalized_height w.database)
        (block_row-height env x.header (length prepared) made
          ∙ sym (is_pos x.height x.header.height p))
        moved
    where
      a : AreHeaded s
      a = Reach-AreHeaded env json dec cfg answers start w₀ r

  first_height-IsCheckpoint :
      (h f : ℤ) (n : ℕ) (w : World)
      → h ≡ pos n
      → IsCheckpoint h f w.database
      → env.faults w.statements ≡ false
      → (first_height env (record (cfg.scheduler) { start_height = none }) w).0 ≡ ok (h +ℤ pos 1)
  unfolding first_height Checkpoint.get Checkpoint.get_state Checkpoint.state_of query ◌+ℤ◌
  first_height-IsCheckpoint h f n w e c clear = rw (clear, c, e) (ground arith)

  -- Where the daemon answers a single request for a height by the header of that height: when a block
  -- worker still has the message of a height and the persister writes the block of no lower a height,
  -- then a run after this turn, with no start height of its own and no fault at its first statement,
  -- goes on one above the height written, and the worker's height has not been written.
  pub restart-skips :
      (start : ℤ) (w₀ : World) {s : State} (xs ys : List BlockWorker) (hs : HeaderFetcher)
      (m : SchedMsg) (x : TxMsg) (rest : List TxMsg) (prepared : List PreparedTx) {w : World}
      → Reach env json dec cfg start w₀ s
      → s.block_workers ≡ xs ++ busy hs m ∷ ys
      → s.txs ≡ x ∷ rest
      → m.height ≤ℤ x.height
      → persist_block env cfg.persister x prepared s.world ≡ (ok tt, w)
      → env.faults w.statements ≡ false
      → ((first_height env (record (cfg.scheduler) { start_height = none }) w).0
          ≡ ok (x.height +ℤ pos 1))
        × (m.height +ℤ pos 1 ≤ℤ x.height +ℤ pos 1)
        × (count m.height (s.persisted ++ x.height ∷ []) ≡ 0)
  restart-skips start w₀ {s} xs ys hs m x rest prepared {w} r held there below done clear =
      let (p, _) = rw there at a.txs in
      (
        first_height-IsCheckpoint x.height x.finalized_height x.header.height w
            (is_pos x.height x.header.height p)
            (persist-IsCheckpoint start w₀ x rest prepared r there done) clear,
        omega int_laws,
        not_written env json dec cfg answers start w₀ xs ys hs m x rest r held there,
      )
    where
      a : AreHeaded s
      a = Reach-AreHeaded env json dec cfg answers start w₀ r
