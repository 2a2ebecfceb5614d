-- ===== src/Sched.antt =====
-- ingestor/src/work_sched.rs: the heights that the pipeline is to ingest, in their order.
pub mod Heights
pub mod Progress
use block_ex.Prelude.{
  ℕ, zero, suc, ◌+◌, ◌-◌, Bool, true, false, Option, none, some, List, [], ◌∷◌, leb, if◌then◌else◌,
}
use block_ex.Prelude.Int.{ℤ, pos, negsuc, ◌+ℤ◌}
use block_ex.Prelude.Words.{i64_try_from, u64_try_from}
use block_ex.Result.{Result, ok, err, running, ok_or, overflow}
use block_ex.Pipeline.{SchedMsg}
use block_ex.Checkpoint
use block_ex.World.{Env, World, M, continue, call, pure, lift, ◌>>=◌}

-- The parts of `Config` that the loop reads.
pub record Config : Type 0 where
  pub start_height : Option ℤ
  pub limit : Option ℕ
  pub finality_window : ℕ

-- A run's outcome, with the messages that it sent.
abbrev pub Sent : Type 0
Sent = Result (Unit {0}) × List SchedMsg × World

abbrev pub reached : Option ℕ → ℕ → Bool
reached none processed = false
reached (some limit) processed = leb limit processed

-- `if next_height < 0 { next_height = 0; }`
abbrev pub non_negative : ℤ → ℤ
non_negative (pos n) = pos n
non_negative (negsuc n) = pos 0

module _ (env : Env) (cfg : Config) where
  unfoldable pub fetch_chain_tip : M ℕ
  fetch_chain_tip = do res ← call (λ n. env.rpc.get_block_count n); pure (res.count - 1)

  -- What a poll that has found the height returns: the tip and the finalized height.
  unfoldable pub finalized_at : ℕ → M (ℕ × ℤ)
  finalized_at tip = do
    finalized ← lift (ok_or overflow (i64_try_from (tip - cfg.finality_window)))
    pure (tip, finalized)

  -- The test of the inner loop. `again` is its next round.
  unfoldable pub after_poll : (ℕ → M (ℕ × ℤ)) → ℕ → ℕ → M (ℕ × ℤ)
  unfolding finalized_at
  after_poll again height tip = elim (leb height tip) [
    | true ↦ finalized_at tip
    | false ↦ again height
  ]

  -- The inner loop, which polls the tip until the height is there. Between polls it sleeps.
  unfoldable pub wait_for_block : ℕ → ℕ → M (ℕ × ℤ)
  unfolding after_poll fetch_chain_tip
  wait_for_block zero height = lift running
  wait_for_block (suc polls) height = do
    tip ← fetch_chain_tip
    after_poll (wait_for_block polls) height tip

  unfoldable pub next_msg : ℕ → ℤ → M SchedMsg
  next_msg polls next_height = do
    height ← lift (ok_or overflow (u64_try_from next_height))
    found ← wait_for_block polls height
    tip_height ← lift (ok_or overflow (i64_try_from found.0))
    pure (record { height = next_height; tip_height = tip_height; finalized_height = found.1 })

  -- The message is sent, and the loop goes on, unless the receivers are gone. They take `room` more
  -- messages.
  abbrev send_msg : SchedMsg → ℕ → Sent → World → Sent
  send_msg msg zero more w = (ok tt, [], w)
  send_msg msg (suc room) (r, sent, w') w = (r, msg ∷ sent, w')

  unfoldable pub send_next : (ℤ → ℕ → World → Sent) → ℤ → ℕ → Result SchedMsg × World → Sent
  send_next again next_height room (ok msg, w) =
      send_msg msg room (again (next_height +ℤ pos 1) (room - 1) w) w
  send_next again next_height room (err e, w) = (err e, [], w)
  send_next again next_height room (running, w) = (running, [], w)

  -- `fuel` bounds the rounds and `polls` the polls of each: without a limit the loop goes on for as
  -- long as the process lives.
  unfoldable pub sched_loop : ℕ → ℕ → ℕ → ℤ → ℕ → World → Sent
  unfolding send_next
  sched_loop zero polls processed next_height room w = (running, [], w)
  sched_loop (suc fuel) polls processed next_height room w = elim (reached cfg.limit processed) [
    | true ↦ (ok tt, [], w)
    | false ↦
        send_next (sched_loop fuel polls (processed + 1)) next_height room
          (next_msg polls next_height w)
  ]

  -- The first height.
  unfoldable pub first_height : M ℤ
  first_height = elim cfg.start_height [
    | some start ↦ pure (non_negative start)
    | none ↦ do last ← Checkpoint.get env; pure (non_negative (last +ℤ pos 1))
  ]

  abbrev start_at : ℕ → ℕ → ℕ → Result ℤ × World → Sent
  start_at fuel polls room (ok next_height, w) = sched_loop fuel polls 0 next_height room w
  start_at fuel polls room (err e, w) = (err e, [], w)
  start_at fuel polls room (running, w) = (running, [], w)

  unfoldable pub run : ℕ → ℕ → ℕ → World → Sent
  unfolding sched_loop first_height
  run fuel polls room w = start_at fuel polls room (first_height w)
