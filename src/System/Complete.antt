-- ===== src/System/Complete.antt =====
-- bin/ingestor.rs: what it takes for `run` to return success.
use block_ex.Prelude.{
  ◌≤◌, ◌≡◌, inl, inr, refl, sym, ap, ◌∙◌, ◌&&◌, Option, none, some, List, [], ◌∷◌, map, arith, All,
  All-weaken, length, if◌then◌else◌,
}
use block_ex.Prelude.Int.{ℤ, pos, ◌+ℤ◌}
use block_ex.Prelude.Order.{leb_ℤ}
use block_ex.Prelude.Counts.{count}
use block_ex.Result.{ok}
use block_ex.External.{Json}
use block_ex.Rpc.{Capabilities}
use block_ex.World.{Env, World}
use block_ex.Header.Ranges.{AnswersHeight}
use block_ex.Persist.Prepare.{Decoders}
use block_ex.System.{RunArgs, Settings, settings}
use block_ex.System.Tasks.{
  Outcome, success, failure, Scheduler, polling, holding, finished, Worker, idle, busy, full, ended,
  State, HasEnded,
}
use block_ex.System.Turns.{Reach}
use block_ex.System.Outcome.{outcome_of, sched_outcome, wait_for, drain_handles, run_result}
use block_ex.System.Honest.{Unless, IsFine, BlocksDone, TxsDone, IsHonest}
use block_ex.System.Honest.Kept.{Reach-IsHonest}
use block_ex.System.Bounds.{Reach-IsBounded, HasSizes, settings-Ensures}
use block_ex.System.Accounting.{drained}

wait_for-eq-success :
    (a b : Option Outcome) → wait_for a b ≡ some success → (a ≡ some success) × (b ≡ some success)
unfolding wait_for
wait_for-eq-success none b h = absurd (cc h)
wait_for-eq-success (some success) b h = (refl, h)
wait_for-eq-success (some (failure e)) b h = absurd (cc h)

finished_of : (c : Scheduler) → sched_outcome c ≡ some success → c ≡ finished success
finished_of (finished r) h = ap (λ (r : Outcome). finished r) (cc h)
finished_of polling h = absurd (cc h)
finished_of (holding m) h = absurd (cc h)

module _ {Kept Job Made : Type 0} where
  -- The worker has ended with success.
  abbrev pub HasSucceeded : Worker Kept Job Made → Type 0
  HasSucceeded w = HasEnded w × IsFine w

  succeeded : (w : Worker Kept Job Made) → outcome_of w ≡ some success → HasSucceeded w
  succeeded (ended success) h = (tt, tt)
  succeeded (ended (failure e)) h = absurd (cc h)
  succeeded (idle k) h = absurd (cc h)
  succeeded (busy k j) h = absurd (cc h)
  succeeded (full k m) h = absurd (cc h)

  drain_handles-success :
      (ws : List (Worker Kept Job Made))
      → drain_handles (map outcome_of ws) ≡ some success
      → All HasSucceeded ws
  unfolding drain_handles
  drain_handles-success [] h = tt
  drain_handles-success (w ∷ ws) h =
      let (one, others) = wait_for-eq-success (outcome_of w) _ h in
      (succeeded w one, drain_handles-success ws others)

  -- One worker that has succeeded tells of all that there was nothing left.
  pub first_one :
      (P : Type 0) (ws : List (Worker Kept Job Made))
      → 1 ≤ length ws
      → All HasSucceeded ws
      → All (Unless P) ws
      → P
  first_one P [] l h u = absurd (omega arith)
  first_one P (ended success ∷ ws) l h u = u.0
  first_one P (ended (failure e) ∷ ws) l h u = absurd h.0.1
  first_one P (idle k ∷ ws) l h u = absurd h.0.0
  first_one P (busy k j ∷ ws) l h u = absurd h.0.0
  first_one P (full k m ∷ ws) l h u = absurd h.0.0

-- Everything that was asked for has been done: as many heights as the limit says, from the first on,
-- were written once each, and no other height was.
pub record IsDone (args : RunArgs) (start : ℤ) (s : State) : Type 0 where
  pub limit : args.limit ≡ some s.processed
  pub written :
      (h : ℤ)
      → count h s.persisted
        ≡ (if leb_ℤ start h && leb_ℤ (h +ℤ pos 1) (start +ℤ pos s.processed) then 1 else 0)
  pub nothing_lost : s.given_up ≡ []

-- What the results of the tasks say once `run` has seen them all succeed.
record HasReturned (s : State) : Type 0 where
  scheduler : s.scheduler ≡ finished success
  block_workers : All HasSucceeded s.block_workers
  tx_workers : All HasSucceeded s.tx_workers
  persister : s.persister ≡ some success

run_result-success : (s : State) → run_result s ≡ some success → HasReturned s
unfolding run_result
run_result-success s h =
    let (a, rest) = wait_for-eq-success (sched_outcome s.scheduler) _ h in
    let (b, rest') = wait_for-eq-success (drain_handles (map outcome_of s.block_workers)) _ rest in
    let (c, d) = wait_for-eq-success (drain_handles (map outcome_of s.tx_workers)) _ rest' in
    record {
      scheduler = finished_of s.scheduler a;
      block_workers = drain_handles-success s.block_workers b;
      tx_workers = drain_handles-success s.tx_workers c;
      persister = d;
    }

All-HasEnded :
    {Kept Job Made : Type 0} (ws : List (Worker Kept Job Made))
    → All HasSucceeded ws
    → All HasEnded ws
All-HasEnded ws a = All-weaken HasSucceeded HasEnded ws (λ w h. h.0) a

All-IsFine :
    {Kept Job Made : Type 0} (ws : List (Worker Kept Job Made))
    → All HasSucceeded ws
    → All IsFine ws
All-IsFine ws a = All-weaken HasSucceeded IsFine ws (λ w h. h.1) a

module _ (env : Env) (json : Json) (dec : Decoders json) (answers : AnswersHeight env) where
  -- Where the daemon answers a single request for a height by the header of that height: with the
  -- settings that `run` makes of its arguments, whatever order the tasks take their turns in, when
  -- `run` returns success then there was a limit, as many heights as it says were written once each,
  -- from the first height on, no other height was written, and none was given up.
  pub run_result-IsDone :
      (args : RunArgs) (caps : Capabilities) (cfg : Settings) (start : ℤ) (w : World) {s : State}
      → settings args caps ≡ ok cfg
      → Reach env json dec cfg start w s
      → run_result s ≡ some success
      → IsDone args start s
  run_result-IsDone args caps cfg start w {s} made r returned = record {
    limit = sym sizes.limit ∙ (rw back.scheduler at h.within);
    written = λ k. rw (sym h.next) (
        drained env json dec cfg answers start w r done.1
          (All-HasEnded s.block_workers back.block_workers) emptied.0
          (All-HasEnded s.tx_workers back.tx_workers) (h.persist_done back.persister).0 nothing k);
    nothing_lost = nothing;
  }
    where
      h : IsHonest cfg start s
      h = Reach-IsHonest cfg start env json dec w r

      sizes : HasSizes args cfg
      sizes = (settings-Ensures args caps).of cfg made

      back : HasReturned s
      back = run_result-success s returned

      bounded : (1 ≤ length s.block_workers) × (1 ≤ length s.tx_workers)
      bounded = (
        omega (arith, Reach-IsBounded env json dec cfg start w r, sizes),
        omega (arith, Reach-IsBounded env json dec cfg start w r, sizes),
      )

      done : BlocksDone s
      done = first_one (BlocksDone s) s.block_workers bounded.0 back.block_workers h.blocks_done

      emptied : (s.blocks ≡ []) × All HasEnded s.block_workers
      emptied = elim (first_one (TxsDone s) s.tx_workers bounded.1 back.tx_workers h.txs_done) [
        | inl e ↦ e
        | inr (e, failed) ↦ absurd (cc (sym back.persister ∙ failed))
      ]

      nothing : s.given_up ≡ []
      nothing = h.nothing_lost (
        All-IsFine s.block_workers back.block_workers,
        All-IsFine s.tx_workers back.tx_workers,
        λ e failed. cc (sym back.persister ∙ failed),
      )
