-- ===== src/Sched/Heights.antt =====
-- work_sched.rs: the heights of the messages.
use mathlib.Core.Path.{subst}
use block_ex.Rpc.{GetBlockCountResult}
use block_ex.Prelude.{
  ℕ, zero, suc, ◌+◌, ◌-◌, ◌≤◌, ◌≡◌, refl, sym, ap, ◌∙◌, Bool, true, false, Option, none, some, List,
  [], ◌∷◌, length, arith, leb,
}
use block_ex.Prelude.Int.{ℤ, pos, ◌+ℤ◌, ◌≤ℤ◌}
use block_ex.Prelude.Words.{i64_try_from, u64_try_from}
use block_ex.Result.{Result, ok, err, running, ok_or, overflow}
use block_ex.Pipeline.{SchedMsg}
use block_ex.World.{Env, World, M, lift}
use block_ex.World.Laws.{>>=-eq-ok}
use block_ex.Sched.{
  Config, Sent, reached, fetch_chain_tip, finalized_at, after_poll, wait_for_block, next_msg,
  send_next, sched_loop,
}

-- The daemon has answered a call for the number of its blocks, of which the last has the height `tip`.
abbrev pub Reports : Env → ℕ → Type 0
Reports env tip =
    (n : ℕ) × (c : GetBlockCountResult) × ((env.rpc.get_block_count n ≡ some c)
      × (tip ≡ c.count - 1))

-- A message for a height within a chain that the daemon has reported, which is finalized up to the
-- window.
pub record IsTimely (env : Env) (window : ℕ) (msg : SchedMsg) : Type 0 where
  pub tip : ℕ
  pub reported : Reports env tip
  pub tip_is : msg.tip_height ≡ pos tip
  pub reaches : msg.height ≤ℤ pos tip
  pub finalized : msg.finalized_height ≡ pos (tip - window)

-- Messages for consecutive heights from the first one on.
abbrev pub IsSchedule : Env → ℕ → ℤ → List SchedMsg → Type 0
IsSchedule env window next [] = Unit
IsSchedule env window next (msg ∷ rest) =
    (msg.height ≡ next) × IsTimely env window msg × IsSchedule env window (next +ℤ pos 1) rest

-- How many messages the limit leaves after some.
abbrev pub IsWithin : Option ℕ → ℕ → List SchedMsg → Type 0
IsWithin none processed sent = Unit
IsWithin (some limit) processed sent = length sent ≤ limit - processed

module _ (env : Env) (cfg : Config) where
  finalized_at-ok :
      (tip : ℕ) (w : World) {found : ℕ × ℤ} {w' : World}
      → finalized_at env cfg tip w ≡ (ok found, w')
      → (found.0 ≡ tip) × (found.1 ≡ pos (tip - cfg.finality_window))
  unfolding finalized_at i64_try_from
  finalized_at-ok tip w h = (ground arith, ground arith)

  after_poll-ok :
      (again : ℕ → M (ℕ × ℤ)) (height tip : ℕ) (w : World) {found : ℕ × ℤ} {w' : World}
      → (again height w ≡ (ok found, w')
          → (height ≤ found.0)
            × (found.1 ≡ pos (found.0 - cfg.finality_window))
            × Reports env found.0)
      → Reports env tip
      → (t : Bool) → leb height tip ≡ t
      → after_poll env cfg again height tip w ≡ (ok found, w')
      → (height ≤ found.0) × (found.1 ≡ pos (found.0 - cfg.finality_window)) × Reports env found.0
  unfolding after_poll
  after_poll-ok again height tip w ih is true e h =
      let r = finalized_at-ok tip w (rw (e, after_poll) at h) in
      (
        ground (arith, r.0),
        r.1 ∙ ap (λ n. pos (n - cfg.finality_window)) (sym r.0),
        subst (Reports env) (sym r.0) is,
      )
  after_poll-ok again height tip w ih is false e h = ih (rw (e, after_poll) at h)

  fetch_chain_tip-ok :
      (w : World) {tip : ℕ} {w' : World}
      → fetch_chain_tip env cfg w ≡ (ok tip, w')
      → Reports env tip
  unfolding fetch_chain_tip
  fetch_chain_tip-ok w {tip} {w'} h = go (env.rpc.get_block_count w.calls) refl
    where
      go : (o : Option GetBlockCountResult) → env.rpc.get_block_count w.calls ≡ o → Reports env tip
      go none e = absurd (cc (ap (λ r. r.0) (rw e at h)))
      go (some c) e = (w.calls, c, (e, cc (ap (λ r. r.0) (rw e at h))))

  wait_for_block-ok :
      (polls height : ℕ) (w : World) {found : ℕ × ℤ} {w' : World}
      → wait_for_block env cfg polls height w ≡ (ok found, w')
      → (height ≤ found.0) × (found.1 ≡ pos (found.0 - cfg.finality_window)) × Reports env found.0
  unfolding wait_for_block
  wait_for_block-ok zero height w h = absurd (cc (ap (λ r. r.0) h))
  wait_for_block-ok (suc polls) height w h =
      let (tip, w₁, polled, rest) = >>=-eq-ok (fetch_chain_tip env cfg) _ w h in
      after_poll-ok (wait_for_block env cfg polls) height tip w₁
        (λ p. wait_for_block-ok polls height w₁ p) (fetch_chain_tip-ok w polled) (leb height tip)
        refl rest

  lift_ok :
      {A : Type 0} (r : Result A) (w : World) {a : A} {w' : World}
      → lift r w ≡ (ok a, w')
      → r ≡ ok a
  lift_ok r w h = ap (λ x. x.0) h

  pub next_msg-IsTimely :
      (polls : ℕ) (next : ℤ) (w : World) {msg : SchedMsg} {w' : World}
      → next_msg env cfg polls next w ≡ (ok msg, w')
      → (msg.height ≡ next) × IsTimely env cfg.finality_window msg
  unfolding next_msg
  next_msg-IsTimely polls next w {msg} {w'} h =
      let (height, w₁, e₁, h₁) = >>=-eq-ok (lift (ok_or overflow (u64_try_from next))) _ w h in
      let (found, w₂, e₂, h₂) = >>=-eq-ok (wait_for_block env cfg polls height) _ w₁ h₁ in
      let (tip, w₃, e₃, h₃) = >>=-eq-ok (lift (ok_or overflow (i64_try_from found.0))) _ w₂ h₂ in
      sent next height found tip (lift_ok _ w e₁) (wait_for_block-ok polls height w₁ e₂)
        (lift_ok _ w₂ e₃) (lift_ok _ w₃ h₃)
    where
      sent :
          (next : ℤ) (height : ℕ) (found : ℕ × ℤ) (tip : ℤ)
          → ok_or overflow (u64_try_from next) ≡ ok height
          → (height ≤ found.0)
            × (found.1 ≡ pos (found.0 - cfg.finality_window))
            × Reports env found.0
          → ok_or overflow (i64_try_from found.0) ≡ ok tip
          → ok (record { height = next; tip_height = tip; finalized_height = found.1 }) ≡ ok msg
          → (msg.height ≡ next) × IsTimely env cfg.finality_window msg
      sent next height found tip e₁ (there, final, reported) e₃ e₄ = (
        cc e₄,
        record {
          tip = found.0;
          reported = reported;
          tip_is = unfold i64_try_from in ground arith;
          reaches = unfold u64_try_from in ground arith;
          finalized = cc (e₄, final);
        },
      )

  -- What is sent from a height on, when some messages were sent before.
  record IsSentFrom (processed : ℕ) (next : ℤ) (s : Sent) : Type 0 where
    schedule : IsSchedule env cfg.finality_window next s.1
    within : IsWithin cfg.limit processed s.1

  IsWithin-cons :
      (limit : Option ℕ) (processed : ℕ) (msg : SchedMsg) (sent : List SchedMsg)
      → reached limit processed ≡ false
      → IsWithin limit (processed + 1) sent
      → IsWithin limit processed (msg ∷ sent)
  IsWithin-cons none processed msg sent e h = tt
  IsWithin-cons (some limit) processed msg sent e h = ground arith

  IsWithin-nil : (limit : Option ℕ) (processed : ℕ) → IsWithin limit processed []
  IsWithin-nil none processed = tt
  IsWithin-nil (some limit) processed = omega arith

  IsSentFrom-nil :
      (processed : ℕ) (next : ℤ) (r : Result (Unit {0})) (w : World)
      → IsSentFrom processed next (r, [], w)
  IsSentFrom-nil processed next r w = record {
    schedule = tt;
    within = IsWithin-nil cfg.limit processed;
  }

  send_next-IsSentFrom :
      (again : ℤ → ℕ → World → Sent) (processed : ℕ) (next : ℤ) (room : ℕ)
      (r : Result SchedMsg × World)
      → reached cfg.limit processed ≡ false
      → ((room : ℕ) (w : World)
          → IsSentFrom (processed + 1) (next +ℤ pos 1) (again (next +ℤ pos 1) room w))
      → ((msg : SchedMsg)
          → r.0 ≡ ok msg
          → (msg.height ≡ next) × IsTimely env cfg.finality_window msg)
      → IsSentFrom processed next (send_next env cfg again next room r)
  unfolding send_next
  send_next-IsSentFrom again processed next zero (ok msg, w) e k m =
      IsSentFrom-nil processed next (ok tt) w
  send_next-IsSentFrom again processed next (suc room) (ok msg, w) e k m =
      let s = again (next +ℤ pos 1) (suc room - 1) w in
      let h = k (suc room - 1) w in
      record {
        schedule = ((m msg refl).0, (m msg refl).1, h.schedule);
        within = IsWithin-cons cfg.limit processed msg s.1 e h.within;
      }
  send_next-IsSentFrom again processed next room (err x, w) e k m =
      IsSentFrom-nil processed next (err x) w
  send_next-IsSentFrom again processed next room (running, w) e k m =
      IsSentFrom-nil processed next running w

  sched_loop-IsSentFrom :
      (fuel polls processed : ℕ) (next : ℤ) (room : ℕ) (w : World)
      → IsSentFrom processed next (sched_loop env cfg fuel polls processed next room w)
  unfolding sched_loop
  sched_loop-IsSentFrom zero polls processed next room w = IsSentFrom-nil processed next running w
  sched_loop-IsSentFrom (suc fuel) polls processed next room w =
      go (reached cfg.limit processed) refl (sched_loop-IsSentFrom fuel polls (processed + 1))
    where
      go :
          (t : Bool)
          → reached cfg.limit processed ≡ t
          → ((next : ℤ) (room : ℕ) (w : World)
              → IsSentFrom
                  (processed + 1)
                  next
                  (sched_loop env cfg fuel polls (processed + 1) next room w))
          → IsSentFrom processed next (sched_loop env cfg (suc fuel) polls processed next room w)
      go true e ih = rw (e, sched_loop) (IsSentFrom-nil processed next (ok tt) w)
      go false e ih =
          rw (e, sched_loop)
            (send_next-IsSentFrom (sched_loop env cfg fuel polls (processed + 1)) processed next
              room (next_msg env cfg polls next w) e (ih (next +ℤ pos 1))
              (λ msg q.
                next_msg-IsTimely polls next w {msg = msg} {w' = (next_msg env cfg polls next w).1}
                  (λ i. (q i, (next_msg env cfg polls next w).1))))

  -- However a run ends, and also where it is still going on, the messages that it has sent from a
  -- first height on are for consecutive heights, no more than the limit allows, each with a tip that
  -- the daemon has reported in answer to a call, as one less than the number of its blocks, for a
  -- height up to that tip, and with the finalized height that lies the window below the tip, or 0.
  pub sched_loop-IsSchedule :
      (fuel polls : ℕ) (first : ℤ) (room : ℕ) (w : World)
      → IsSchedule env cfg.finality_window first (sched_loop env cfg fuel polls 0 first room w).1
        × IsWithin cfg.limit 0 (sched_loop env cfg fuel polls 0 first room w).1
  sched_loop-IsSchedule fuel polls first room w =
      let h = sched_loop-IsSentFrom fuel polls 0 first room w in (h.schedule, h.within)
