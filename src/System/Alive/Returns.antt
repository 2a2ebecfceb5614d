-- ===== src/System/Alive/Returns.antt =====
-- bin/ingestor.rs: `run` behind its tasks, which come to an end or have a turn.
use block_ex.Prelude.{
  ◌≤◌, ◌<◌, ◌^◌, ◌≡◌, ◌⊎◌, inl, inr, refl, sym, ◌∙◌, Option, none, some, List, [], ◌∷◌, map, arith,
  All, length,
}
use block_ex.Prelude.Int.{ℤ}
use block_ex.Result.{ok}
use block_ex.External.{Json}
use block_ex.Rpc.{Capabilities}
use block_ex.Pipeline.{make_channels}
use block_ex.World.{Env, World}
use block_ex.Limits.{eff_concurrency}
use block_ex.Persist.Prepare.{Decoders}
use block_ex.System.{RunArgs, Settings, settings}
use block_ex.System.Tasks.{
  Outcome, success, failure, finished, Worker, idle, busy, full, ended, State, HasEnded,
}
use block_ex.System.Turns.{Reach}
use block_ex.System.Outcome.{outcome_of, wait_for, drain_handles, run_result}
use block_ex.System.Honest.{IsHonest, AreFine, IsFine, TxsDone, BlocksDone}
use block_ex.System.Complete.{HasSucceeded, first_one}
use block_ex.System.Honest.Kept.{Reach-IsHonest}
use block_ex.System.Bounds.{Reach-IsBounded, HasSizes, settings-Ensures}
use block_ex.System.Alive.{WorkEnds, CanStep, running_turn}

drain_handles-HasEnded :
    {Kept Job Made : Type 0} (ws : List (Worker Kept Job Made))
    → All HasEnded ws
    → All IsFine ws
    → drain_handles (map outcome_of ws) ≡ some success
unfolding drain_handles wait_for
drain_handles-HasEnded [] a f = refl
drain_handles-HasEnded (ended success ∷ ws) a f = drain_handles-HasEnded ws a.1 f.1
drain_handles-HasEnded (ended (failure e) ∷ ws) a f = absurd f.0
drain_handles-HasEnded (idle k ∷ ws) a f = absurd a.0
drain_handles-HasEnded (busy k j ∷ ws) a f = absurd a.0
drain_handles-HasEnded (full k m ∷ ws) a f = absurd a.0

both :
    {Kept Job Made : Type 0} (ws : List (Worker Kept Job Made))
    → All HasEnded ws
    → All IsFine ws
    → All HasSucceeded ws
both [] a f = tt
both (w ∷ ws) a f = ((a.0, f.0), both ws a.1 f.1)

-- Behind a persister that has ended well, all that `run` waits for has an outcome.
returned :
    (cfg : Settings) (start : ℤ) (s : State)
    → IsHonest cfg start s
    → AreFine s
    → 1 ≤ length s.block_workers
    → 1 ≤ length s.tx_workers
    → s.persister ≡ some success
    → (r : Outcome) × (run_result s ≡ some r)
unfolding run_result wait_for
returned cfg start s h fine blocks txs over =
    let (empty, txs_ended) = h.persist_done over in
    let done =
      first_one (TxsDone s) s.tx_workers txs (both s.tx_workers txs_ended fine.1) h.txs_done in
    go done txs_ended
  where
    result :
        (r : Outcome)
        → s.scheduler ≡ finished r
        → All HasEnded s.block_workers
        → All HasEnded s.tx_workers
        → (r' : Outcome) × (run_result s ≡ some r')
    result (failure e) at b t = (failure e, rw at refl)
    result success at b t = (
      success,
      rw
          (
            at,
            drain_handles-HasEnded s.block_workers b fine.0,
            drain_handles-HasEnded s.tx_workers t fine.1,
            over,
          )
          refl,
    )

    go : TxsDone s → All HasEnded s.tx_workers → (r : Outcome) × (run_result s ≡ some r)
    go (inr (e, failed)) t = absurd (cc (sym over ∙ failed))
    go (inl (empty, b)) t =
        let (r, no_jobs, at) =
          first_one (BlocksDone s) s.block_workers blocks (both s.block_workers b fine.0)
            h.blocks_done in
        result r at b t

-- With the settings that `run` makes of its arguments, for a concurrency below 2 ^ 62: in each state that
-- the tasks reach, if no worker and no persister has failed and the work that each has in hand comes to
-- an end, with success or an error, then some task has a turn, or `run` has returned.
pub Reach-CanStep :
    (env : Env) (json : Json) (dec : Decoders json) (args : RunArgs) (caps : Capabilities)
    (cfg : Settings) (start : ℤ) (w : World) {s : State}
    → settings args caps ≡ ok cfg
    → eff_concurrency args.ingest_concurrency args.bootstrap < 2 ^ 62
    → Reach env json dec cfg start w s
    → AreFine s
    → WorkEnds env json dec cfg s
    → CanStep env json dec cfg s ⊎ ((r : Outcome) × (run_result s ≡ some r))
unfolding make_channels
Reach-CanStep env json dec args caps cfg start w {s} made small r fine work = go s.persister refl
  where
    sizes : HasSizes args cfg
    sizes = (settings-Ensures args caps).of cfg made

    go :
        (p : Option Outcome)
        → s.persister ≡ p
        → CanStep env json dec cfg s ⊎ ((r : Outcome) × (run_result s ≡ some r))
    go none at = inl (
        running_turn env json dec cfg s work s.txs refl at (omega (arith, sizes))
          (omega (arith, sizes)) (omega (arith, sizes)))
    go (some (failure e)) at = absurd (fine.2 e at)
    go (some success) at = inr (
        returned cfg start s (Reach-IsHonest cfg start env json dec w r) fine
          (omega (arith, Reach-IsBounded env json dec cfg start w r, sizes))
          (omega (arith, Reach-IsBounded env json dec cfg start w r, sizes)) at)
