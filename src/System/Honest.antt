-- ===== src/System/Honest.antt =====
-- bin/ingestor.rs: a task ends with success only when those before it have ended and it has nothing
-- left to do, and a height is given up only by a task that fails, or behind one that has failed.
pub mod Kept
use block_ex.Prelude.{
  ℕ, ◌+◌, ◌≤◌, ◌<◌, ◌≡◌, ◌≢◌, ◌⊎◌, inl, inr, refl, sym, ap, ◌∙◌, true, false, Option, none, some,
  List, [], ◌∷◌, ◌++◌, leb, leb→le, arith, All, All-weaken,
}
use block_ex.Prelude.Int.{ℤ, pos, ◌+ℤ◌, int_laws}
use block_ex.Prelude.Totals.{All-found, All-replace, All-replicate}
use block_ex.Result.{Error}
use block_ex.External.{Json}
use block_ex.Pipeline.{SchedMsg}
use block_ex.World.{Env, World}
use block_ex.Header
use block_ex.Sched.{reached}
use block_ex.Persist.Prepare.{Decoders}
use block_ex.System.{Settings}
use block_ex.System.Tasks.{
  Outcome, success, failure, Scheduler, polling, holding, finished, Worker, BlockWorker, TxWorker,
  idle, busy, full, ended, State, HasEnded,
}
use block_ex.System.Turns.{
  SchedStep, poll, send_sched, fail_sched, close_sched, BlockStep, take_sched, make_block,
  send_block, fail_block, close_block, TxStep, take_block, make_tx, send_tx, fail_tx, refuse_tx,
  close_tx, PersistStep, persist, fail_prepare, fail_persist, close_persist, Step, by_sched,
  by_block, by_tx, by_persist, Reach, here, turn,
}
use block_ex.System.Frames.{BlockFrame, TxFrame, block_frame, tx_frame}

module _ {Kept Job Made : Type 0} where
  -- If the worker has ended with success, then `P`.
  abbrev pub Unless : Type 0 → Worker Kept Job Made → Type 0
  Unless P (ended success) = P
  Unless P (ended (failure e)) = Unit
  Unless P (idle k) = Unit
  Unless P (busy k j) = Unit
  Unless P (full k m) = Unit

  -- The worker has not failed.
  abbrev pub IsFine : Worker Kept Job Made → Type 0
  IsFine (ended (failure e)) = ⊥
  IsFine (ended success) = Unit
  IsFine (idle k) = Unit
  IsFine (busy k j) = Unit
  IsFine (full k m) = Unit

  Unless-map : {P Q : Type 0} → (P → Q) → (x : Worker Kept Job Made) → Unless P x → Unless Q x
  Unless-map f (ended success) p = f p
  Unless-map f (ended (failure e)) p = tt
  Unless-map f (idle k) p = tt
  Unless-map f (busy k j) p = tt
  Unless-map f (full k m) p = tt

  All-Unless :
      (P Q : Type 0) (ws : List (Worker Kept Job Made))
      → (P → Q)
      → All (Unless P) ws
      → All (Unless Q) ws
  All-Unless P Q ws f a = All-weaken (Unless P) (Unless Q) ws (Unless-map f) a

-- How far the scheduler is from its limit.
abbrev pub IsWithin : Option ℕ → ℕ → Scheduler → Type 0
IsWithin limit n polling = (k : ℕ) → limit ≡ some k → n ≤ k
IsWithin limit n (holding m) = (k : ℕ) → limit ≡ some k → n < k
IsWithin limit n (finished success) = limit ≡ some n
IsWithin limit n (finished (failure e)) = Unit

-- There is nothing left for the block workers.
abbrev pub BlocksDone : State → Type 0
BlocksDone s = (r : Outcome) × (s.sched ≡ []) × (s.scheduler ≡ finished r)

-- There is nothing left for the transaction workers, or nobody to send it to.
abbrev pub TxsDone : State → Type 0
TxsDone s =
    ((s.blocks ≡ []) × All HasEnded s.block_workers)
    ⊎ ((e : Error) × (s.persister ≡ some (failure e)))

abbrev pub AreFine : State → Type 0
AreFine s =
    All IsFine s.block_workers
    × All IsFine s.tx_workers
    × ((e : Error) → s.persister ≢ some (failure e))

pub record IsHonest (cfg : Settings) (start : ℤ) (s : State) : Type 0 where
  pub within : IsWithin cfg.scheduler.limit s.processed s.scheduler
  pub next : s.next_height ≡ start +ℤ pos s.processed
  pub blocks_done : All (Unless (BlocksDone s)) s.block_workers
  pub txs_done : All (Unless (TxsDone s)) s.tx_workers
  pub persist_done : s.persister ≡ some success → (s.txs ≡ []) × All HasEnded s.tx_workers
  pub nothing_lost : AreFine s → s.given_up ≡ []

module _ (cfg : Settings) (start : ℤ) where
  -- A worker that had not ended is now `y`.
  pub block_replaced :
      (s t : State) (xs ys : List BlockWorker) (x y : BlockWorker)
      → s.block_workers ≡ xs ++ x ∷ ys
      → t.block_workers ≡ xs ++ y ∷ ys
      → BlockFrame s t
      → (HasEnded x → ⊥)
      → IsFine x
      → (BlocksDone s → BlocksDone t)
      → Unless (BlocksDone t) y
      → (IsFine y → s.given_up ≡ [] → t.given_up ≡ [])
      → IsHonest cfg start s
      → IsHonest cfg start t
  block_replaced s t xs ys x y was is f live fine done ends lost h = record {
    within = rw (f.processed, f.scheduler) h.within;
    next = rw (f.processed, f.next_height) h.next;
    blocks_done = rw is (
        All-replace (Unless (BlocksDone t)) s.block_workers xs ys x y was ends
          (All-Unless _ _ s.block_workers done h.blocks_done));
    txs_done = rw f.tx_workers (All-Unless (TxsDone s) (TxsDone t) s.tx_workers still h.txs_done);
    persist_done = rw (f.persister, f.txs, f.tx_workers) h.persist_done;
    nothing_lost = λ a. lost (All-found IsFine t.block_workers xs ys y is a.0) (
        h.nothing_lost (
          rw was (All-replace IsFine t.block_workers xs ys y x is fine a.0),
          rw (sym f.tx_workers) a.1,
          rw (sym f.persister) a.2,
        ));
  }
    where
      still : TxsDone s → TxsDone t
      still (inl (empty, all)) = absurd (live (All-found HasEnded s.block_workers xs ys x was all))
      still (inr (e, failed)) = inr (e, rw f.persister failed)

  pub tx_replaced :
      (s t : State) (xs ys : List TxWorker) (x y : TxWorker)
      → s.tx_workers ≡ xs ++ x ∷ ys
      → t.tx_workers ≡ xs ++ y ∷ ys
      → TxFrame s t
      → (HasEnded x → ⊥)
      → IsFine x
      → (TxsDone s → TxsDone t)
      → Unless (TxsDone t) y
      → (s.persister ≡ some success → t.txs ≡ s.txs)
      → (AreFine s → IsFine y → s.given_up ≡ [] → t.given_up ≡ [])
      → IsHonest cfg start s
      → IsHonest cfg start t
  tx_replaced s t xs ys x y was is f live fine done ends same lost h = record {
    within = rw (f.processed, f.scheduler) h.within;
    next = rw (f.processed, f.next_height) h.next;
    blocks_done = rw (f.block_workers, f.sched, f.scheduler) h.blocks_done;
    txs_done = rw is (
        All-replace (Unless (TxsDone t)) s.tx_workers xs ys x y was ends
          (All-Unless _ _ s.tx_workers done h.txs_done));
    persist_done = λ p. absurd (
        live
          (All-found HasEnded s.tx_workers xs ys x was ((h.persist_done (sym f.persister ∙ p)).1)));
    nothing_lost = λ a.
        let b = before a in
        lost b (All-found IsFine t.tx_workers xs ys y is a.1) (h.nothing_lost b);
  }
    where
      before : AreFine t → AreFine s
      before a = (
        rw (sym f.block_workers) a.0,
        rw was (All-replace IsFine t.tx_workers xs ys y x is fine a.1),
        rw (sym f.persister) a.2,
      )

  still_running :
      (s : State) (r : Option Outcome)
      → s.persister ≡ none
      → TxsDone s
      → TxsDone (record s { persister = r })
  still_running s r writes (inl (empty, all)) = inl (empty, all)
  still_running s r writes (inr (q, failed)) = absurd (cc (sym writes ∙ failed))

  pub persister_ended :
      (s : State) (r : Outcome)
      → s.persister ≡ none
      → All (Unless (TxsDone s)) s.tx_workers
      → All (Unless (TxsDone (record s { persister = some r }))) s.tx_workers
  persister_ended s r writes a =
      All-Unless (TxsDone s) (TxsDone (record s { persister = some r })) s.tx_workers
        (still_running s (some r) writes) a

  -- Before the scheduler has ended no block worker has ended with success.
  pub sched_changed :
      (s : State) (n : ℤ) (k : ℕ) (c : Scheduler) (l : List SchedMsg) (w : World)
      → ((r : Outcome) → s.scheduler ≢ finished r)
      → IsWithin cfg.scheduler.limit k c
      → n ≡ start +ℤ pos k
      → IsHonest cfg start s
      → IsHonest cfg start
          (record s { next_height = n; processed = k; scheduler = c; sched = l; world = w })
  sched_changed s n k c l w live within next h = record {
    within = within;
    next = next;
    blocks_done =
        All-Unless (BlocksDone s) _ s.block_workers (λ d. absurd (live d.0 d.2)) h.blocks_done;
    txs_done = h.txs_done;
    persist_done = h.persist_done;
    nothing_lost = h.nothing_lost;
  }

  pub reached-eq-limit :
      (limit : Option ℕ) (n : ℕ)
      → reached limit n ≡ true
      → ((k : ℕ) → limit ≡ some k → n ≤ k)
      → limit ≡ some n
  reached-eq-limit none n r h = absurd (cc r)
  reached-eq-limit (some k) n r h = ap some (omega (arith, h k refl, leb→le k n r))

  pub not_reached : (limit : Option ℕ) (n k : ℕ) → reached limit n ≡ false → limit ≡ some k → n < k
  not_reached limit n k r e = unreached (rw e at r)
    where
      unreached : leb k n ≡ false → n < k
      unreached q = ground arith
