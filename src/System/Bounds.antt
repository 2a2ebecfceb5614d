-- ===== src/System/Bounds.antt =====
-- bin/ingestor.rs and pipeline.rs: how many messages there are at a time.
use block_ex.Prelude.{
  ℕ, ◌+◌, ◌*◌, ◌≤◌, ◌≡◌, refl, max, List, [], ◌∷◌, ◌++◌, arith, length, length-append,
  length-replicate,
}
use block_ex.Prelude.Int.{ℤ}
use block_ex.Prelude.Totals.{total, total-le-length, length-replace}
use block_ex.Result.{ok}
use block_ex.Result.Ensures.{Ensures, of_ok, Ensures-bind}
use block_ex.External.{Json}
use block_ex.Rpc.{Capabilities}
use block_ex.Pipeline.{PipelineCfg, make_channels}
use block_ex.World.{Env, World}
use block_ex.Header
use block_ex.Limits.{eff_concurrency}
use block_ex.Persist.Prepare.{Decoders}
use block_ex.System.{RunArgs, Settings, settings, start_of}
use block_ex.System.Tasks.{Worker, idle, busy, full, ended, success, failure, State}
use block_ex.System.Turns.{
  SchedStep, poll, send_sched, fail_sched, close_sched, BlockStep, take_sched, make_block,
  send_block, fail_block, close_block, TxStep, take_block, make_tx, send_tx, fail_tx, refuse_tx,
  close_tx, PersistStep, persist, fail_prepare, fail_persist, close_persist, Step, by_sched,
  by_block, by_tx, by_persist, Reach, here, turn,
}

-- No channel holds more than it may, and no worker is added.
pub record IsBounded (cfg : Settings) (s : State) : Type 0 where
  pub sched : length s.sched ≤ (make_channels cfg.pipeline).sched
  pub block_workers : length s.block_workers ≡ cfg.pipeline.block_workers
  pub blocks : length s.blocks ≤ (make_channels cfg.pipeline).block
  pub tx_workers : length s.tx_workers ≡ cfg.pipeline.tx_workers
  pub txs : length s.txs ≤ (make_channels cfg.pipeline).tx

pub length-snoc {ℓ} : {A : Type ℓ} (xs : List A) (x : A) → length (xs ++ x ∷ []) ≡ length xs + 1
length-snoc xs x = omega (arith, length-append xs (x ∷ []))

pub length-head {ℓ} :
    {A : Type ℓ} (l rest : List A) (x : A) → l ≡ x ∷ rest → length l ≡ length rest + 1
length-head l rest x e = rw e (omega arith)

module _ (env : Env) (json : Json) (dec : Decoders json) (cfg : Settings) where
  SchedStep-IsBounded :
      {s t : State} → SchedStep env json dec cfg s t → IsBounded cfg s → IsBounded cfg t
  SchedStep-IsBounded (poll polls m w at limit made e) b = rw e (omega arith)
  SchedStep-IsBounded {s} (send_sched m at room e) b = rw e (omega (arith, length-snoc s.sched m))
  SchedStep-IsBounded (fail_sched polls x w at limit made e) b = rw e (omega arith)
  SchedStep-IsBounded (close_sched at limit e) b = rw e (omega arith)

  BlockStep-IsBounded :
      {s t : State} → BlockStep env json dec cfg s t → IsBounded cfg s → IsBounded cfg t
  BlockStep-IsBounded {s} (take_sched xs ys hs m rest free there e) b = rw e (
      omega (
        arith,
        length-head s.sched rest m there,
        length-replace s.block_workers xs ys (idle hs) (busy hs m) free,
      ))
  BlockStep-IsBounded {s} (make_block xs ys hs hs' m fuel x w has made e) b =
      rw e (omega (arith, length-replace s.block_workers xs ys (busy hs m) (full hs' x) has))
  BlockStep-IsBounded {s} (send_block xs ys hs x has room e) b = rw e (
      omega (
        arith,
        length-snoc s.blocks x,
        length-replace s.block_workers xs ys (full hs x) (idle hs) has,
      ))
  BlockStep-IsBounded {s} (fail_block xs ys hs hs' m fuel x w has made e) b =
      rw e (omega (arith, length-replace s.block_workers xs ys (busy hs m) (ended (failure x)) has))
  BlockStep-IsBounded {s} (close_block xs ys hs r free empty done e) b =
      rw e (omega (arith, length-replace s.block_workers xs ys (idle hs) (ended success) free))

  TxStep-IsBounded : {s t : State} → TxStep env json dec cfg s t → IsBounded cfg s → IsBounded cfg t
  TxStep-IsBounded {s} (take_block xs ys x rest free there e) b = rw e (
      omega (
        arith,
        length-head s.blocks rest x there,
        length-replace s.tx_workers xs ys (idle tt) (busy tt x) free,
      ))
  TxStep-IsBounded {s} (make_tx xs ys x fuel y w has made e) b =
      rw e (omega (arith, length-replace s.tx_workers xs ys (busy tt x) (full tt y) has))
  TxStep-IsBounded {s} (send_tx xs ys y has writes room e) b = rw e (
      omega
        (arith, length-snoc s.txs y, length-replace s.tx_workers xs ys (full tt y) (idle tt) has))
  TxStep-IsBounded {s} (fail_tx xs ys x fuel y w has made e) b =
      rw e (omega (arith, length-replace s.tx_workers xs ys (busy tt x) (ended (failure y)) has))
  TxStep-IsBounded {s} (refuse_tx xs ys y r has done e) b =
      rw e (omega (arith, length-replace s.tx_workers xs ys (full tt y) (ended success) has))
  TxStep-IsBounded {s} (close_tx xs ys free empty done e) b =
      rw e (omega (arith, length-replace s.tx_workers xs ys (idle tt) (ended success) free))

  PersistStep-IsBounded :
      {s t : State} → PersistStep env json dec cfg s t → IsBounded cfg s → IsBounded cfg t
  PersistStep-IsBounded {s} (persist x rest prepared w writes there made done e) b =
      rw e (omega (arith, length-head s.txs rest x there))
  PersistStep-IsBounded {s} (fail_prepare x rest q writes there made e) b =
      rw e (omega (arith, length-head s.txs rest x there))
  PersistStep-IsBounded {s} (fail_persist x rest prepared q w writes there made done e) b =
      rw e (omega (arith, length-head s.txs rest x there))
  PersistStep-IsBounded (close_persist writes empty done e) b = rw e (omega arith)

  Step-IsBounded : {s t : State} → Step env json dec cfg s t → IsBounded cfg s → IsBounded cfg t
  Step-IsBounded (by_sched st) b = SchedStep-IsBounded st b
  Step-IsBounded (by_block st) b = BlockStep-IsBounded st b
  Step-IsBounded (by_tx st) b = TxStep-IsBounded st b
  Step-IsBounded (by_persist st) b = PersistStep-IsBounded st b

  pub Reach-IsBounded :
      (start : ℤ) (w : World) {s : State} → Reach env json dec cfg start w s → IsBounded cfg s
  Reach-IsBounded start w here = omega (
    arith,
    length-replicate {0} cfg.pipeline.block_workers (idle (Header.new cfg.caps cfg.header_batch)),
    length-replicate {0} cfg.pipeline.tx_workers (idle tt),
  )
  Reach-IsBounded start w (turn r st) = Step-IsBounded st (Reach-IsBounded start w r)

-- The sizes that `run` chooses.
pub record HasSizes (args : RunArgs) (cfg : Settings) : Type 0 where
  pub sched : cfg.pipeline.sched_buffer ≡ 512
  pub blocks : cfg.pipeline.block_workers ≤ 4
  pub some_blocks : 1 ≤ cfg.pipeline.block_workers
  pub txs : cfg.pipeline.tx_workers ≡ max (eff_concurrency args.ingest_concurrency args.bootstrap) 1
  pub limit : cfg.scheduler.limit ≡ args.limit

pub settings-Ensures :
    (args : RunArgs) (caps : Capabilities) → Ensures (HasSizes args) (settings args caps)
unfolding settings
settings-Ensures args caps = Ensures-bind _ (start_of args.start_height) _ λ start _.
    of_ok _ _ _ refl (record {
      sched = refl;
      blocks = omega arith;
      some_blocks = omega arith;
      txs = refl;
      limit = refl;
    })

-- 1 for a worker that has a message, or has made one.
module _ {Kept Job Made : Type 0} where
  abbrev pub in_hand : Worker Kept Job Made → ℕ
  in_hand (busy k j) = 1
  in_hand (full k m) = 1
  in_hand _ = 0

  pub in_hand_bounds : (ws : List (Worker Kept Job Made)) → total in_hand ws ≤ length ws
  in_hand_bounds ws = total-le-length in_hand ws λ x. one x
    where
      one : (x : Worker Kept Job Made) → in_hand x ≤ 1
      one (idle k) = omega arith
      one (busy k j) = omega arith
      one (full k m) = omega arith
      one (ended r) = omega arith

-- The messages in the channels and in the hands of workers.
abbrev pub in_flight : State → ℕ
in_flight s =
    length s.sched
    + total in_hand s.block_workers
    + length s.blocks
    + total in_hand s.tx_workers
    + length s.txs

pub channels_fit :
    (cfg : PipelineCfg)
    → ((make_channels cfg).sched ≡ cfg.sched_buffer)
      × ((make_channels cfg).block ≤ cfg.block_workers * 4)
      × ((make_channels cfg).tx ≤ cfg.tx_workers * 4)
unfolding make_channels
channels_fit cfg = (refl, omega arith, omega arith)

-- With the settings that `run` makes of its arguments, there are never more than 532 messages in
-- flight, and five for each transaction worker.
pub in_flight_bounds :
    (env : Env) (json : Json) (dec : Decoders json) (args : RunArgs) (caps : Capabilities)
    → (cfg : Settings) (start : ℤ) (w : World) {s : State} → settings args caps ≡ ok cfg
    → Reach env json dec cfg start w s
    → in_flight s ≤ 532 + 5 * max (eff_concurrency args.ingest_concurrency args.bootstrap) 1
in_flight_bounds env json dec args caps cfg start w {s} made r = omega (
  arith,
  Reach-IsBounded env json dec cfg start w r,
  (settings-Ensures args caps).of cfg made,
  channels_fit cfg.pipeline,
  in_hand_bounds s.block_workers,
  in_hand_bounds s.tx_workers,
)
