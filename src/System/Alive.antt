-- ===== src/System/Alive.antt =====
-- bin/ingestor.rs: the tasks do not wait for one another in a circle.
pub mod Returns
use mathlib.Core.Path.{subst}
use block_ex.Prelude.{
  ℕ, ◌+◌, ◌≤◌, ◌<◌, ◌^◌, ◌≡◌, ◌⊎◌, inl, inr, refl, sym, ap, ◌∙◌, Bool, true, false, Bool-cases,
  Option, none, some, List, [], ◌∷◌, ◌++◌, map, max, arith, All, length,
}
use block_ex.Prelude.Int.{ℤ}
use block_ex.Prelude.Totals.{All-found}
use block_ex.Result.{Result, Error, ok, err, running}
use block_ex.External.{Json}
use block_ex.Rpc.{Capabilities}
use block_ex.Pipeline.{SchedMsg, BlockMsg, TxMsg, make_channels}
use block_ex.World.{Env, World}
use block_ex.World.Rules.{HasEnded as IsOver}
use block_ex.Limits.{eff_concurrency}
use block_ex.Header.{HeaderFetcher}
use block_ex.Sched.{next_msg, reached}
use block_ex.Block.{process_job}
use block_ex.Txs.{process_block}
use block_ex.Persist.{persist_block}
use block_ex.Persist.Prepare.{Decoders, PreparedTx, prepare_block}
use block_ex.System.{RunArgs, Settings, settings}
use block_ex.System.Tasks.{
  Outcome, success, failure, Scheduler, polling, holding, finished, Worker, BlockWorker, TxWorker,
  idle, busy, full, ended, State, HasEnded,
}
use block_ex.System.Turns.{
  poll, send_sched, fail_sched, close_sched, take_sched, make_block, send_block, fail_block,
  close_block, take_block, make_tx, send_tx, fail_tx, refuse_tx, close_tx, persist, fail_prepare,
  fail_persist, close_persist, Step, by_sched, by_block, by_tx, by_persist, Reach,
}
use block_ex.System.Outcome.{outcome_of, sched_outcome, wait_for, drain_handles, run_result}
use block_ex.System.Honest.{IsHonest, AreFine, IsFine, TxsDone, BlocksDone}
use block_ex.System.Complete.{HasSucceeded, first_one}
use block_ex.System.Honest.Kept.{Reach-IsHonest}
use block_ex.System.Bounds.{Reach-IsBounded, HasSizes, settings-Ensures}

module _ {Kept Job Made : Type 0} where
  -- The first worker that has not ended, or that there is none.
  data Found (ws : List (Worker Kept Job Made)) : Type 0 where
    idle_at : (xs ys : List (Worker Kept Job Made)) (k : Kept) → ws ≡ xs ++ idle k ∷ ys → Found ws
    busy_at :
        (xs ys : List (Worker Kept Job Made)) (k : Kept) (j : Job)
        → ws ≡ xs ++ busy k j ∷ ys
        → Found ws
    full_at :
        (xs ys : List (Worker Kept Job Made)) (k : Kept) (m : Made)
        → ws ≡ xs ++ full k m ∷ ys
        → Found ws
    none_left : All HasEnded ws → Found ws

  Found-cons : (r : Outcome) (ws : List (Worker Kept Job Made)) → Found ws → Found (ended r ∷ ws)
  Found-cons r ws (idle_at xs ys k e) = idle_at (ended r ∷ xs) ys k (ap (λ l. ended r ∷ l) e)
  Found-cons r ws (busy_at xs ys k j e) = busy_at (ended r ∷ xs) ys k j (ap (λ l. ended r ∷ l) e)
  Found-cons r ws (full_at xs ys k m e) = full_at (ended r ∷ xs) ys k m (ap (λ l. ended r ∷ l) e)
  Found-cons r ws (none_left a) = none_left (tt, a)

  find_worker : (ws : List (Worker Kept Job Made)) → Found ws
  find_worker [] = none_left tt
  find_worker (idle k ∷ ws) = idle_at [] ws k refl
  find_worker (busy k j ∷ ws) = busy_at [] ws k j refl
  find_worker (full k m ∷ ws) = full_at [] ws k m refl
  find_worker (ended r ∷ ws) = Found-cons r ws (find_worker ws)

module _ (env : Env) (json : Json) (dec : Decoders json) (cfg : Settings) where
  -- What a worker has to do comes to an end, by itself or with an error.
  abbrev pub JobEnds : World → BlockWorker → Type 0
  JobEnds w (busy hs m) =
      (fuel : ℕ) × IsOver (process_job env json fuel cfg.scheduler.finality_window m hs w).0
  JobEnds w (idle hs) = Unit
  JobEnds w (full hs b) = Unit
  JobEnds w (ended r) = Unit

  abbrev pub FetchEnds : World → TxWorker → Type 0
  FetchEnds w (busy u b) = (fuel : ℕ) × IsOver (process_block env fuel cfg.concurrency b w).0
  FetchEnds w (idle u) = Unit
  FetchEnds w (full u x) = Unit
  FetchEnds w (ended r) = Unit

  -- So does the work of each task in the state: the daemon reports the next height some time unless the limit is reached, the
  -- retries and the requests of the workers end, and the persister's message is worked off.
  pub record WorkEnds (s : State) : Type 0 where
    pub polls :
        s.scheduler ≡ polling
        → reached cfg.scheduler.limit s.processed ≡ false
        → (n : ℕ) × IsOver (next_msg env cfg.scheduler n s.next_height s.world).0
    pub jobs : All (JobEnds s.world) s.block_workers
    pub fetches : All (FetchEnds s.world) s.tx_workers
    pub prepares :
        (x : TxMsg) (rest : List TxMsg)
        → s.txs ≡ x ∷ rest
        → IsOver (prepare_block env.hex json dec x cfg.persister.do_analytics)
    pub writes :
        (x : TxMsg) (rest : List TxMsg) (prepared : List PreparedTx)
        → s.txs ≡ x ∷ rest
        → prepare_block env.hex json dec x cfg.persister.do_analytics ≡ ok prepared
        → IsOver (persist_block env cfg.persister x prepared s.world).0

  -- Some task has a turn.
  abbrev pub CanStep : State → Type 0
  CanStep s = (t : State) × Step env json dec cfg s t

  module _ (s : State) (work : WorkEnds s) where
    sched_turn :
        (c : Scheduler)
        → s.scheduler ≡ c
        → length s.sched < (make_channels cfg.pipeline).sched
        → CanStep s ⊎ ((r : Outcome) × (s.scheduler ≡ finished r))
    sched_turn (finished r) at room = inr (r, at)
    sched_turn (holding m) at room = inl (_, by_sched (send_sched m at room refl))
    sched_turn polling at room = inl (go (reached cfg.scheduler.limit s.processed) refl)
      where
        polled :
            (n : ℕ) (x : Result SchedMsg × World)
            → next_msg env cfg.scheduler n s.next_height s.world ≡ x
            → reached cfg.scheduler.limit s.processed ≡ false
            → IsOver x.0
            → CanStep s
        polled n (ok m, w) e more over = (_, by_sched (poll n m w at more e refl))
        polled n (err x, w) e more over = (_, by_sched (fail_sched n x w at more e refl))
        polled n (running, w) e more over = absurd over

        go : (t : Bool) → reached cfg.scheduler.limit s.processed ≡ t → CanStep s
        go true e = (_, by_sched (close_sched at e refl))
        go false e =
            let (n, over) = work.polls at e in
            polled n (next_msg env cfg.scheduler n s.next_height s.world) refl e over

    job_turn :
        (xs ys : List BlockWorker) (hs : HeaderFetcher) (m : SchedMsg) (fuel : ℕ)
        (x : Result BlockMsg × HeaderFetcher × World)
        → s.block_workers ≡ xs ++ busy hs m ∷ ys
        → process_job env json fuel cfg.scheduler.finality_window m hs s.world ≡ x
        → IsOver x.0
        → CanStep s
    job_turn xs ys hs m fuel (ok b, hs', w) at e over =
        (_, by_block (make_block xs ys hs hs' m fuel b w at e refl))
    job_turn xs ys hs m fuel (err x, hs', w) at e over =
        (_, by_block (fail_block xs ys hs hs' m fuel x w at e refl))
    job_turn xs ys hs m fuel (running, hs', w) at e over = absurd over

    block_turn :
        (l : List SchedMsg)
        → s.sched ≡ l
        → Found s.block_workers
        → s.blocks ≡ []
        → 0 < (make_channels cfg.pipeline).sched
        → 0 < (make_channels cfg.pipeline).block
        → CanStep s ⊎ All HasEnded s.block_workers
    block_turn l queue (busy_at xs ys hs m at) empty some_sched some_block =
        let (fuel, over) =
          All-found (JobEnds s.world) s.block_workers xs ys (busy hs m) at work.jobs in
        inl (job_turn xs ys hs m fuel _ at refl over)
    block_turn l queue (full_at xs ys hs b at) empty some_sched some_block =
        inl (_, by_block (send_block xs ys hs b at (rw empty some_block) refl))
    block_turn (m ∷ rest) queue (idle_at xs ys hs at) empty some_sched some_block =
        inl (_, by_block (take_sched xs ys hs m rest at queue refl))
    block_turn [] queue (idle_at xs ys hs at) empty some_sched some_block =
        elim (sched_turn s.scheduler refl (rw queue some_sched)) [
          | inl step ↦ inl step
          | inr (r, done) ↦ inl (_, by_block (close_block xs ys hs r at queue done refl))
        ]
    block_turn l queue (none_left a) empty some_sched some_block = inr a

    fetch_turn :
        (xs ys : List TxWorker) (b : BlockMsg) (fuel : ℕ) (x : Result TxMsg × World)
        → s.tx_workers ≡ xs ++ busy tt b ∷ ys
        → process_block env fuel cfg.concurrency b s.world ≡ x
        → IsOver x.0
        → CanStep s
    fetch_turn xs ys b fuel (ok x, w) at e over = (_, by_tx (make_tx xs ys b fuel x w at e refl))
    fetch_turn xs ys b fuel (err q, w) at e over = (_, by_tx (fail_tx xs ys b fuel q w at e refl))
    fetch_turn xs ys b fuel (running, w) at e over = absurd over

    -- The persister still runs and has nothing to write.
    tx_turn :
        (l : List BlockMsg)
        → s.blocks ≡ l
        → Found s.tx_workers
        → s.persister ≡ none
        → s.txs ≡ []
        → 0 < (make_channels cfg.pipeline).sched
        → 0 < (make_channels cfg.pipeline).block
        → 0 < (make_channels cfg.pipeline).tx
        → CanStep s
    tx_turn l queue (busy_at xs ys tt b at) runs empty some_sched some_block some_tx =
        let (fuel, over) =
          All-found (FetchEnds s.world) s.tx_workers xs ys (busy tt b) at work.fetches in
        fetch_turn xs ys b fuel _ at refl over
    tx_turn l queue (full_at xs ys tt x at) runs empty some_sched some_block some_tx =
        (_, by_tx (send_tx xs ys x at runs (rw empty some_tx) refl))
    tx_turn (b ∷ rest) queue (idle_at xs ys tt at) runs empty some_sched some_block some_tx =
        (_, by_tx (take_block xs ys b rest at queue refl))
    tx_turn [] queue (idle_at xs ys tt at) runs empty some_sched some_block some_tx =
        elim (block_turn s.sched refl (find_worker s.block_workers) queue some_sched some_block) [
          | inl step ↦ step
          | inr all ↦ (_, by_tx (close_tx xs ys at queue all refl))
        ]
    tx_turn l queue (none_left a) runs empty some_sched some_block some_tx =
        (_, by_persist (close_persist runs empty a refl))

    -- The persister still runs and has a message.
    persist_turn :
        (x : TxMsg) (rest : List TxMsg)
        → s.persister ≡ none
        → s.txs ≡ x ∷ rest
        → (p : Result (List PreparedTx))
        → prepare_block env.hex json dec x cfg.persister.do_analytics ≡ p
        → CanStep s
    persist_turn x rest runs queue (err q) e =
        (_, by_persist (fail_prepare x rest q runs queue e refl))
    persist_turn x rest runs queue running e = absurd (subst IsOver e (work.prepares x rest queue))
    persist_turn x rest runs queue (ok prepared) e =
        written (persist_block env cfg.persister x prepared s.world) refl
          (work.writes x rest prepared queue e)
      where
        written :
            (y : Result (Unit {0}) × World)
            → persist_block env cfg.persister x prepared s.world ≡ y
            → IsOver y.0
            → CanStep s
        written (ok tt, w) f over = (_, by_persist (persist x rest prepared w runs queue e f refl))
        written (err q, w) f over =
            (_, by_persist (fail_persist x rest prepared q w runs queue e f refl))
        written (running, w) f over = absurd over

    pub running_turn :
        (l : List TxMsg)
        → s.txs ≡ l
        → s.persister ≡ none
        → 0 < (make_channels cfg.pipeline).sched
        → 0 < (make_channels cfg.pipeline).block
        → 0 < (make_channels cfg.pipeline).tx
        → CanStep s
    running_turn (x ∷ rest) queue runs a b c = persist_turn x rest runs queue _ refl
    running_turn [] queue runs a b c =
        tx_turn s.blocks refl (find_worker s.tx_workers) runs queue a b c
