-- ===== src/System/Moves.antt =====
-- bin/ingestor.rs: what a turn does to the messages of a height.
use mathlib.Core.List.{◌++◌, []}
use block_ex.Prelude.Counts.{count-append}
use block_ex.Prelude.{ℕ, ◌+◌, ◌≡◌, ◌⊎◌, inl, inr, refl, ap, map, arith}
use block_ex.Prelude.Int.{ℤ, pos, ◌+ℤ◌}
use block_ex.Prelude.Counts.{count, once, count-snoc, count-map_snoc, count-map_cons}
use block_ex.Prelude.Totals.{total, total-replace}
use block_ex.Result.{Result, ok}
use block_ex.External.{Json}
use block_ex.Pipeline.{SchedMsg, BlockMsg, TxMsg}
use block_ex.World.{Env, World}
use block_ex.World.Laws.{>>=-eq-ok}
use block_ex.Header.{HeaderFetcher}
use block_ex.Header.Ranges.{AnswersHeight}
use block_ex.Sched.Heights.{next_msg-IsTimely}
use block_ex.Block.{process_job}
use block_ex.Block.Job.{process_job-ok}
use block_ex.Txs.{process_block, fetch_transactions}
use block_ex.Persist.Prepare.{Decoders}
use block_ex.System.{Settings}
use block_ex.System.Tasks.{
  polling, holding, finished, Scheduler, BlockWorker, TxWorker, idle, busy, full, ended, State,
  success, failure,
}
use block_ex.System.Turns.{
  SchedStep, poll, send_sched, fail_sched, close_sched, BlockStep, take_sched, make_block,
  send_block, fail_block, close_block, TxStep, take_block, make_tx, send_tx, fail_tx, refuse_tx,
  close_tx, PersistStep, persist, fail_prepare, fail_persist, close_persist, Step, by_sched,
  by_block, by_tx, by_persist,
}

-- 1 if the worker has a message for the height.
abbrev pub at_block : ℤ → BlockWorker → ℕ
at_block h (idle hs) = 0
at_block h (busy hs m) = once h m.height
at_block h (full hs b) = once h b.height
at_block h (ended r) = 0

abbrev pub at_tx : ℤ → TxWorker → ℕ
at_tx h (idle u) = 0
at_tx h (busy u b) = once h b.height
at_tx h (full u x) = once h x.height
at_tx h (ended r) = 0

-- How many messages for a height are anywhere between the scheduler and the end.
abbrev pub occurrences : ℤ → State → ℕ
occurrences h s =
    count h (map (λ m. m.height) s.sched)
    + total (at_block h) s.block_workers
    + count h (map (λ m. m.height) s.blocks)
    + total (at_tx h) s.tx_workers
    + count h (map (λ m. m.height) s.txs)
    + count h s.persisted
    + count h s.given_up

process_block-height :
    (env : Env) (fuel n : ℕ) (b : BlockMsg) (w : World) {x : TxMsg} {w' : World}
    → process_block env fuel n b w ≡ (ok x, w')
    → x.height ≡ b.height
unfolding process_block
process_block-height env fuel n b w h =
    let (pairs, w₁, fetched, rest) = >>=-eq-ok (fetch_transactions env fuel b.tx_hashes n) _ w h in
    ground (arith, ap (λ (r : Result TxMsg × World). r.0) rest)

-- What the scheduler holds is for the next height.
abbrev pub IsNext : ℤ → Scheduler → Type 0
IsNext h (holding m) = m.height ≡ h
IsNext h polling = Unit
IsNext h (finished r) = Unit

-- From `s` to `t` messages only moved, or one for the next height has come.
pub record Carries (s t : State) : Type 0 where
  pub moved :
      ((t.next_height ≡ s.next_height) × ((h : ℤ) → occurrences h t ≡ occurrences h s))
      ⊎ ((t.next_height ≡ s.next_height +ℤ pos 1)
          × ((h : ℤ) → occurrences h t ≡ occurrences h s + once h s.next_height))
  pub holds_next : IsNext t.next_height t.scheduler

moves :
    (s t : State)
    → t.next_height ≡ s.next_height
    → t.scheduler ≡ s.scheduler
    → IsNext s.next_height s.scheduler
    → ((h : ℤ) → occurrences h t ≡ occurrences h s)
    → Carries s t
moves s t e sched n k = record { moved = inl (e, k); holds_next = rw (e, sched) n }

module _ (env : Env) (json : Json) (dec : Decoders json) (cfg : Settings)
    (answers : AnswersHeight env) where
  passed_on :
      (fuel : ℕ) (m : SchedMsg) (hs : HeaderFetcher) (w : World) {b : BlockMsg}
      {hs' : HeaderFetcher} {w' : World}
      → process_job env json fuel cfg.scheduler.finality_window m hs w ≡ (ok b, hs', w')
      → b.height ≡ m.height
  passed_on fuel m hs w made =
      let found = process_job-ok env json answers fuel cfg.scheduler.finality_window m hs w made in
      let p = found.passed_on in p.height

  SchedStep-Carries :
      {s t : State}
      → SchedStep env json dec cfg s t
      → IsNext s.next_height s.scheduler
      → Carries s t
  SchedStep-Carries {s} (poll polls m w at limit made e) n = rw e (record {
    moved = inl (refl, λ h. refl);
    holds_next = (next_msg-IsTimely env cfg.scheduler polls s.next_height s.world made).0;
  })
  SchedStep-Carries {s} (send_sched m at room e) n = rw e (record {
    moved = inr (
      refl,
      λ h. omega (
        arith,
        count-map_snoc (λ (x : SchedMsg). x.height) h s.sched m,
        ap (once h) (rw at at n),
      ),
    );
    holds_next = tt;
  })
  SchedStep-Carries {s} (fail_sched polls x w at limit made e) n =
      rw e (record { moved = inl (refl, λ h. refl); holds_next = tt })
  SchedStep-Carries {s} (close_sched at limit e) n =
      rw e (record { moved = inl (refl, λ h. refl); holds_next = tt })

  BlockStep-Carries :
      {s t : State}
      → BlockStep env json dec cfg s t
      → IsNext s.next_height s.scheduler
      → Carries s t
  BlockStep-Carries {s} (take_sched xs ys hs m rest free there e) n = rw e (
      moves s _ refl refl n λ h. omega (
        arith,
        count-map_cons (λ (x : SchedMsg). x.height) h s.sched rest m there,
        total-replace (at_block h) s.block_workers xs ys (idle hs) (busy hs m) free,
      ))
  BlockStep-Carries {s} (make_block xs ys hs hs' m fuel b w has made e) n = rw e (
      moves s _ refl refl n λ h. omega (
        arith,
        total-replace (at_block h) s.block_workers xs ys (busy hs m) (full hs' b) has,
        ap (once h) (passed_on fuel m hs s.world made),
      ))
  BlockStep-Carries {s} (send_block xs ys hs b has room e) n = rw e (
      moves s _ refl refl n λ h. omega (
        arith,
        total-replace (at_block h) s.block_workers xs ys (full hs b) (idle hs) has,
        count-map_snoc (λ (x : BlockMsg). x.height) h s.blocks b,
      ))
  BlockStep-Carries {s} (fail_block xs ys hs hs' m fuel x w has made e) n = rw e (
      moves s _ refl refl n λ h. omega (
        arith,
        total-replace (at_block h) s.block_workers xs ys (busy hs m) (ended (failure x)) has,
        count-snoc h m.height s.given_up,
      ))
  BlockStep-Carries {s} (close_block xs ys hs r free empty done e) n = rw e (
      moves s _ refl refl n λ h.
        omega
          (arith, total-replace (at_block h) s.block_workers xs ys (idle hs) (ended success) free))

  TxStep-Carries :
      {s t : State} → TxStep env json dec cfg s t → IsNext s.next_height s.scheduler → Carries s t
  TxStep-Carries {s} (take_block xs ys b rest free there e) n = rw e (
      moves s _ refl refl n λ h. omega (
        arith,
        count-map_cons (λ (x : BlockMsg). x.height) h s.blocks rest b there,
        total-replace (at_tx h) s.tx_workers xs ys (idle tt) (busy tt b) free,
      ))
  TxStep-Carries {s} (make_tx xs ys b fuel x w has made e) n = rw e (
      moves s _ refl refl n λ h. omega (
        arith,
        total-replace (at_tx h) s.tx_workers xs ys (busy tt b) (full tt x) has,
        ap (once h) (process_block-height env fuel cfg.concurrency b s.world made),
      ))
  TxStep-Carries {s} (send_tx xs ys x has writes room e) n = rw e (
      moves s _ refl refl n λ h. omega (
        arith,
        total-replace (at_tx h) s.tx_workers xs ys (full tt x) (idle tt) has,
        count-map_snoc (λ (x : TxMsg). x.height) h s.txs x,
      ))
  TxStep-Carries {s} (fail_tx xs ys b fuel x w has made e) n = rw e (
      moves s _ refl refl n λ h. omega (
        arith,
        total-replace (at_tx h) s.tx_workers xs ys (busy tt b) (ended (failure x)) has,
        count-snoc h b.height s.given_up,
      ))
  TxStep-Carries {s} (refuse_tx xs ys x r has done e) n = rw e (
      moves s _ refl refl n λ h. omega (
        arith,
        total-replace (at_tx h) s.tx_workers xs ys (full tt x) (ended success) has,
        count-snoc h x.height s.given_up,
      ))
  TxStep-Carries {s} (close_tx xs ys free empty done e) n = rw e (
      moves s _ refl refl n λ h.
        omega (arith, total-replace (at_tx h) s.tx_workers xs ys (idle tt) (ended success) free))

  dropped :
      (s : State) (h : ℤ)
      → count h (s.given_up ++ map (λ (m : TxMsg). m.height) s.txs)
          + count h (map (λ (m : TxMsg). m.height) [])
        ≡ count h s.given_up + count h (map (λ (m : TxMsg). m.height) s.txs)
  unfolding count
  dropped s h = omega (arith, count-append h s.given_up (map (λ (m : TxMsg). m.height) s.txs))

  PersistStep-Carries :
      {s t : State}
      → PersistStep env json dec cfg s t
      → IsNext s.next_height s.scheduler
      → Carries s t
  PersistStep-Carries {s} (persist x rest prepared w writes there made done e) n = rw e (
      moves s _ refl refl n λ h. omega (
        arith,
        count-map_cons (λ (x : TxMsg). x.height) h s.txs rest x there,
        count-snoc h x.height s.persisted,
      ))
  PersistStep-Carries {s} (fail_prepare x rest q writes there made e) n =
      rw e (moves s _ refl refl n λ h. omega (arith, dropped s h))
  PersistStep-Carries {s} (fail_persist x rest prepared q w writes there made done e) n =
      rw e (moves s _ refl refl n λ h. omega (arith, dropped s h))
  PersistStep-Carries {s} (close_persist writes empty done e) n =
      rw e (moves s _ refl refl n λ h. refl)

  pub Step-Carries :
      {s t : State} → Step env json dec cfg s t → IsNext s.next_height s.scheduler → Carries s t
  Step-Carries (by_sched st) n = SchedStep-Carries st n
  Step-Carries (by_block st) n = BlockStep-Carries st n
  Step-Carries (by_tx st) n = TxStep-Carries st n
  Step-Carries (by_persist st) n = PersistStep-Carries st n
