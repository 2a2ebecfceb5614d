-- ===== src/Sched/Progress.antt =====
-- work_sched.rs: that a run with a limit gets there.
use block_ex.Prelude.{
  ℕ, zero, suc, ◌+◌, ◌-◌, ◌^◌, ◌≤◌, ◌<◌, ◌≡◌, refl, ap, ◌∙◌, true, false, Bool-cases, inl, inr,
  some, [], length, arith, leb,
}
use mathlib.Core.Path.{subst}
use block_ex.Prelude.Int.{ℤ, pos, ◌+ℤ◌}
use block_ex.Prelude.Words.{i64_try_from, u64_try_from}
use block_ex.Result.{ok}
use block_ex.Rpc.{GetBlockCountResult}
use block_ex.Pipeline.{SchedMsg}
use block_ex.World.{Env, World, M}
use block_ex.Sched.{
  Config, Sent, reached, fetch_chain_tip, finalized_at, after_poll, wait_for_block, next_msg,
  send_next, sched_loop, first_height, run,
}

-- The daemon always reports a chain that has the height, within 63 bits.
abbrev pub Reports : Env → ℕ → Type 0
Reports env top =
    (n : ℕ)
    → (res : GetBlockCountResult) × (env.rpc.get_block_count n ≡ some res)
      × (top < res.count)
      × (res.count ≤ 2 ^ 63)

-- What is left of the limit is sent.
pub record IsComplete (left : ℕ) (s : Sent) : Type 0 where
  pub outcome : s.0 ≡ ok tt
  pub sent : length s.1 ≡ left

module _ (env : Env) (cfg : Config) (top : ℕ) (reports : Reports env top) where
  fits : (n : ℕ) → n < 2 ^ 63 → i64_try_from n ≡ some (pos n)
  unfolding i64_try_from
  fits n p = ground arith

  polled :
      (again : ℕ → M (ℕ × ℤ)) (h tip : ℕ) (w : World)
      → h ≤ tip
      → tip < 2 ^ 63
      → after_poll env cfg again h tip w ≡ (ok (tip, pos (tip - cfg.finality_window)), w)
  unfolding after_poll finalized_at
  polled again h tip w p q =
      let there : leb h tip ≡ true = ground arith in
      rw (there, after_poll)
        (rw (fits (tip - cfg.finality_window) (omega arith), finalized_at) refl)

  next_msg-ok :
      (polls h : ℕ) (w : World)
      → h ≤ top
      → (m : SchedMsg) × (w' : World) × (next_msg env cfg (suc polls) (pos h) w ≡ (ok m, w'))
  unfolding next_msg wait_for_block fetch_chain_tip u64_try_from
  next_msg-ok polls h w p =
      let (res, e, above, below) = reports w.calls in
      (
        record {
          height = pos h;
          tip_height = pos (res.count - 1);
          finalized_height = pos (res.count - 1 - cfg.finality_window);
        },
        record w { calls = w.calls + 1 },
        rw
            (
              e,
              polled (wait_for_block env cfg polls) h (res.count - 1)
                  (record w { calls = w.calls + 1 }) (omega arith) (omega arith),
              fits (res.count - 1) (omega arith),
            )
            refl,
      )

  next : (h : ℕ) → pos h +ℤ pos 1 ≡ pos (h + 1)
  unfolding ◌+ℤ◌
  next h = ground arith

  IsComplete-cons :
      (again : ℤ → ℕ → World → Sent) (h room left : ℕ) (m : SchedMsg) (w : World)
      → 1 ≤ room
      → IsComplete left (again (pos h +ℤ pos 1) (room - 1) w)
      → IsComplete (left + 1) (send_next env cfg again (pos h) room (ok m, w))
  unfolding send_next
  IsComplete-cons again h zero left m w p c = absurd (omega arith)
  IsComplete-cons again h (suc room) left m w p c = record {
    outcome = c.outcome;
    sent = omega (arith, c.sent);
  }

  stops :
      (fuel polls processed room : ℕ) (from : ℤ) (w : World)
      → reached cfg.limit processed ≡ true
      → sched_loop env cfg (suc fuel) polls processed from room w ≡ (ok tt, [], w)
  unfolding sched_loop
  stops fuel polls processed room from w e = rw (e, sched_loop) refl

  goes_on :
      (fuel polls processed room : ℕ) (from : ℤ) (w : World)
      → reached cfg.limit processed ≡ false
      → sched_loop env cfg (suc fuel) polls processed from room w
        ≡ send_next env cfg
            (sched_loop env cfg fuel polls (processed + 1))
            from
            room
            (next_msg env cfg polls from w)
  unfolding sched_loop send_next
  goes_on fuel polls processed room from w e = rw (e, sched_loop) refl

  sched_loop-IsComplete :
      (fuel polls processed h room limit : ℕ) (w : World)
      → cfg.limit ≡ some limit
      → limit - processed < fuel
      → limit - processed ≤ room
      → h + (limit - processed) ≤ top + 1
      → IsComplete
          (limit - processed)
          (sched_loop env cfg fuel (suc polls) processed (pos h) room w)
  sched_loop-IsComplete zero polls processed h room limit w e a b c = absurd (omega arith)
  sched_loop-IsComplete (suc fuel) polls processed h room limit w e a b c =
      elim (Bool-cases (leb limit processed)) [
        | inl done ↦
            rw
              (stops fuel (suc polls) processed room (pos h) w
                (ap (λ l. reached l processed) e ∙ done))
              (record { outcome = refl; sent = ground arith })
        | inr more ↦
            let (m, w', got) = next_msg-ok polls h w (ground arith) in
            rw
              (
                goes_on fuel (suc polls) processed room (pos h) w
                    (ap (λ l. reached l processed) e ∙ more),
                got,
              )
              (subst
                (λ n. IsComplete n (
                  send_next env cfg (sched_loop env cfg fuel (suc polls) (processed + 1)) (pos h)
                    room (ok m, w')))
                (ground arith)
                (IsComplete-cons (sched_loop env cfg fuel (suc polls) (processed + 1)) h room
                  (limit - (processed + 1)) m w' (ground arith)
                  (rw (next h) (
                    sched_loop-IsComplete fuel polls (processed + 1) (h + 1) (room - 1) limit w' e
                      (ground arith) (ground arith) (ground arith)))))
      ]

  begins :
      (start : ℕ) (w : World)
      → cfg.start_height ≡ some (pos start)
      → first_height env cfg w ≡ (ok (pos start), w)
  begins start w s =
      ap (λ o. first_height env (record cfg { start_height = o }) w) s ∙ unfold first_height in refl

  -- Where the daemon always reports a chain, within 63 bits, that has the heights from a start on as
  -- many as the limit: a run with that start and limit, one poll a round, more rounds than the limit and
  -- receivers that take that many messages, ends with success and has sent as many as the limit.
  pub run-IsComplete :
      (fuel polls room start limit : ℕ) (w : World)
      → cfg.start_height ≡ some (pos start)
      → cfg.limit ≡ some limit
      → limit < fuel
      → limit ≤ room
      → start + limit ≤ top + 1
      → IsComplete limit (run env cfg fuel (suc polls) room w)
  unfolding run
  run-IsComplete fuel polls room start limit w s e a b c = rw (begins start w s) (
      subst (λ n. IsComplete n (sched_loop env cfg fuel (suc polls) 0 (pos start) room w)) zero_off
        (sched_loop-IsComplete fuel polls 0 start room limit w e (omega arith) (omega arith)
          (omega arith)))
    where
      zero_off : limit - 0 ≡ limit
      zero_off = omega arith
