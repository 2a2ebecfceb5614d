-- ===== src/System/Stall.antt =====
-- bin/ingestor.rs: what becomes of a run whose persister has failed.
use block_ex.Prelude.{
  ℕ, ◌+◌, ◌*◌, ◌≤◌, ◌≡◌, ◌⊎◌, inl, inr, refl, sym, ◌∙◌, none, some, List, max, arith, length,
}
use block_ex.Prelude.Int.{ℤ}
use block_ex.Prelude.Totals.{total, total-replace, total-le-length}
use block_ex.Result.{Error, ok}
use block_ex.External.{Json}
use block_ex.Rpc.{Capabilities}
use block_ex.Limits.{eff_concurrency}
use block_ex.World.{Env, World}
use block_ex.Persist.Prepare.{Decoders}
use block_ex.System.{RunArgs, Settings, settings}
use block_ex.System.Tasks.{
  Outcome, success, failure, Scheduler, polling, holding, finished, Worker, idle, busy, full, ended,
  State,
}
use block_ex.System.Turns.{
  SchedStep, poll, send_sched, fail_sched, close_sched, BlockStep, take_sched, make_block,
  send_block, fail_block, close_block, TxStep, take_block, make_tx, send_tx, fail_tx, refuse_tx,
  close_tx, PersistStep, persist, fail_prepare, fail_persist, close_persist, Step, by_sched,
  by_block, by_tx, by_persist, Steps, Reach, here, turn,
}
use block_ex.System.Outcome.{wait_for, run_result}
use block_ex.System.Honest.{IsWithin}
use block_ex.System.Honest.Kept.{Reach-IsHonest}
use block_ex.System.Bounds.{
  Reach-IsBounded, settings-Ensures, channels_fit, length-snoc, length-head,
}

module _ {Kept Job Made : Type 0} where
  -- 0 for a worker that can take a message.
  abbrev taken : Worker Kept Job Made → ℕ
  taken (idle k) = 0
  taken (busy k j) = 1
  taken (full k m) = 1
  taken (ended r) = 1

  taken-le-length : (ws : List (Worker Kept Job Made)) → total taken ws ≤ length ws
  taken-le-length ws = total-le-length taken ws λ x. one x
    where
      one : (x : Worker Kept Job Made) → taken x ≤ 1
      one (idle k) = omega arith
      one (busy k j) = omega arith
      one (full k m) = omega arith
      one (ended r) = omega arith

-- The places that are taken: in the channels, and of workers that have a message or have ended.
abbrev load : State → ℕ
load s =
    length s.sched
    + total taken s.block_workers
    + length s.blocks
    + total taken s.tx_workers
    + length s.txs

-- From `s` to `t` nothing was written, and each height that was sent has taken a place.
record Fills (s t : State) : Type 0 where
  persister : t.persister ≡ s.persister
  persisted : t.persisted ≡ s.persisted
  filled : t.processed + load s ≤ s.processed + load t

module _ (env : Env) (json : Json) (dec : Decoders json) (cfg : Settings) where
  SchedStep-Fills : {s t : State} → SchedStep env json dec cfg s t → Fills s t
  SchedStep-Fills (poll polls m w at limit made e) =
      rw e (record { persister = refl; persisted = refl; filled = omega arith })
  SchedStep-Fills {s} (send_sched m at room e) =
      rw e (record {
        persister = refl;
        persisted = refl;
        filled = omega (arith, length-snoc s.sched m);
      })
  SchedStep-Fills (fail_sched polls x w at limit made e) =
      rw e (record { persister = refl; persisted = refl; filled = omega arith })
  SchedStep-Fills (close_sched at limit e) =
      rw e (record { persister = refl; persisted = refl; filled = omega arith })

  BlockStep-Fills : {s t : State} → BlockStep env json dec cfg s t → Fills s t
  BlockStep-Fills {s} (take_sched xs ys hs m rest free there e) = rw e (record {
    persister = refl;
    persisted = refl;
    filled = omega (
      arith,
      length-head s.sched rest m there,
      total-replace taken s.block_workers xs ys (idle hs) (busy hs m) free,
    );
  })
  BlockStep-Fills {s} (make_block xs ys hs hs' m fuel b w has made e) = rw e (record {
    persister = refl;
    persisted = refl;
    filled = omega (arith, total-replace taken s.block_workers xs ys (busy hs m) (full hs' b) has);
  })
  BlockStep-Fills {s} (send_block xs ys hs b has room e) = rw e (record {
    persister = refl;
    persisted = refl;
    filled = omega (
      arith,
      length-snoc s.blocks b,
      total-replace taken s.block_workers xs ys (full hs b) (idle hs) has,
    );
  })
  BlockStep-Fills {s} (fail_block xs ys hs hs' m fuel x w has made e) = rw e (record {
    persister = refl;
    persisted = refl;
    filled =
        omega
          (arith, total-replace taken s.block_workers xs ys (busy hs m) (ended (failure x)) has);
  })
  BlockStep-Fills {s} (close_block xs ys hs r free empty done e) = rw e (record {
    persister = refl;
    persisted = refl;
    filled =
        omega (arith, total-replace taken s.block_workers xs ys (idle hs) (ended success) free);
  })

  TxStep-Fills :
      {s t : State} (r : Outcome) → TxStep env json dec cfg s t → s.persister ≡ some r → Fills s t
  TxStep-Fills {s} r (take_block xs ys b rest free there e) gone = rw e (record {
    persister = refl;
    persisted = refl;
    filled = omega (
      arith,
      length-head s.blocks rest b there,
      total-replace taken s.tx_workers xs ys (idle tt) (busy tt b) free,
    );
  })
  TxStep-Fills {s} r (make_tx xs ys b fuel x w has made e) gone = rw e (record {
    persister = refl;
    persisted = refl;
    filled = omega (arith, total-replace taken s.tx_workers xs ys (busy tt b) (full tt x) has);
  })
  TxStep-Fills r (send_tx xs ys x has writes room e) gone = absurd (cc (sym writes ∙ gone))
  TxStep-Fills {s} r (fail_tx xs ys b fuel x w has made e) gone = rw e (record {
    persister = refl;
    persisted = refl;
    filled =
        omega (arith, total-replace taken s.tx_workers xs ys (busy tt b) (ended (failure x)) has);
  })
  TxStep-Fills {s} r (refuse_tx xs ys x r' has done e) gone = rw e (record {
    persister = refl;
    persisted = refl;
    filled = omega (arith, total-replace taken s.tx_workers xs ys (full tt x) (ended success) has);
  })
  TxStep-Fills {s} r (close_tx xs ys free empty done e) gone = rw e (record {
    persister = refl;
    persisted = refl;
    filled = omega (arith, total-replace taken s.tx_workers xs ys (idle tt) (ended success) free);
  })

  -- The persister takes no more turns.
  no_PersistStep :
      {s t : State} (r : Outcome) → PersistStep env json dec cfg s t → s.persister ≡ some r → ⊥
  no_PersistStep r (persist x rest prepared w writes there made done e) gone =
      cc (sym writes ∙ gone)
  no_PersistStep r (fail_prepare x rest q writes there made e) gone = cc (sym writes ∙ gone)
  no_PersistStep r (fail_persist x rest prepared q w writes there made done e) gone =
      cc (sym writes ∙ gone)
  no_PersistStep r (close_persist writes empty done e) gone = cc (sym writes ∙ gone)

  Step-Fills :
      {s t : State} (r : Outcome) → Step env json dec cfg s t → s.persister ≡ some r → Fills s t
  Step-Fills r (by_sched st) gone = SchedStep-Fills st
  Step-Fills r (by_block st) gone = BlockStep-Fills st
  Step-Fills r (by_tx st) gone = TxStep-Fills r st gone
  Step-Fills r (by_persist st) gone = absurd (no_PersistStep r st gone)

  Steps-Fills :
      {s t : State} (r : Outcome) → Steps env json dec cfg s t → s.persister ≡ some r → Fills s t
  Steps-Fills r here gone = record { persister = refl; persisted = refl; filled = omega arith }
  Steps-Fills r (turn {t} {u} steps st) gone =
      let f = Steps-Fills r steps gone in
      let g = Step-Fills r st (f.persister ∙ gone) in
      record {
        persister = g.persister ∙ f.persister;
        persisted = g.persisted ∙ f.persisted;
        filled = omega (arith, f.filled, g.filled);
      }

  Steps-append :
      {start : ℤ} {w : World} {s t : State}
      → Reach env json dec cfg start w s
      → Steps env json dec cfg s t
      → Reach env json dec cfg start w t
  Steps-append r here = r
  Steps-append r (turn steps st) = turn (Steps-append r steps) st

  load_bounds :
      (start : ℤ) (w : World) {s : State}
      → Reach env json dec cfg start w s
      → load s
        ≤ cfg.pipeline.sched_buffer + 5 * cfg.pipeline.block_workers + 5 * cfg.pipeline.tx_workers
  load_bounds start w {s} r = omega (
    arith,
    Reach-IsBounded env json dec cfg start w r,
    channels_fit cfg.pipeline,
    taken-le-length s.block_workers,
    taken-le-length s.tx_workers,
  )

-- `run` waits, unless the scheduler has failed.
abbrev pub Waits : State → Type 0
Waits s = (run_result s ≡ none) ⊎ ((e : Error) × (s.scheduler ≡ finished (failure e)))

Waits-unlimited : (n : ℕ) (s : State) → IsWithin none n s.scheduler → Waits s
unfolding run_result wait_for
Waits-unlimited n s h = go s.scheduler refl h
  where
    go : (c : Scheduler) → s.scheduler ≡ c → IsWithin none n c → Waits s
    go polling e h = inl (rw e refl)
    go (holding m) e h = inl (rw e refl)
    go (finished success) e h = absurd (cc h)
    go (finished (failure x)) e h = inr (x, e)

-- With the settings that `run` makes of arguments without a limit: once the persister has failed,
-- whatever turns the tasks take from there, nothing more is written, at most 532 more heights are sent
-- and five for each transaction worker, and `run` waits, unless the scheduler fails.
pub Steps-Waits :
    (env : Env) (json : Json) (dec : Decoders json) (args : RunArgs) (caps : Capabilities)
    (cfg : Settings) (start : ℤ) (w : World) (e : Error) {s t : State}
    → settings args caps ≡ ok cfg
    → args.limit ≡ none
    → Reach env json dec cfg start w s
    → s.persister ≡ some (failure e)
    → Steps env json dec cfg s t
    → (t.persisted ≡ s.persisted)
      × (t.processed
          ≤ s.processed + 532 + 5 * max (eff_concurrency args.ingest_concurrency args.bootstrap) 1)
      × Waits t
Steps-Waits env json dec args caps cfg start w e {s} {t} made unlimited r gone steps =
    let f = Steps-Fills env json dec cfg (failure e) steps gone in
    let r' = Steps-append env json dec cfg r steps in
    let h = Reach-IsHonest cfg start env json dec w r' in
    let sizes = (settings-Ensures args caps).of cfg made in
    (
      f.persisted,
      omega (arith, f.filled, sizes, load_bounds env json dec cfg start w r'),
      Waits-unlimited t.processed t (rw (sizes.limit ∙ unlimited) at h.within),
    )
