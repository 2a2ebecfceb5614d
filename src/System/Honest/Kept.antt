-- ===== src/System/Honest/Kept.antt =====
-- bin/ingestor.rs: every turn keeps the tasks honest.
use block_ex.Prelude.{ℕ, ◌+◌, ◌≤◌, ◌≡◌, inl, inr, refl, sym, ◌∙◌, some, [], ◌∷◌, ◌++◌, arith}
use block_ex.Prelude.Int.{ℤ, pos, ◌+ℤ◌, int_laws}
use block_ex.Prelude.Totals.{All-found, All-replicate}
use block_ex.External.{Json}
use block_ex.World.{Env, World}
use block_ex.Header
use block_ex.Persist.Prepare.{Decoders}
use block_ex.System.{Settings}
use block_ex.System.Tasks.{
  success, failure, polling, holding, finished, idle, busy, full, ended, State, HasEnded,
}
use block_ex.System.Turns.{
  SchedStep, poll, send_sched, fail_sched, close_sched, BlockStep, take_sched, make_block,
  send_block, fail_block, close_block, TxStep, take_block, make_tx, send_tx, fail_tx, refuse_tx,
  close_tx, PersistStep, persist, fail_prepare, fail_persist, close_persist, Step, by_sched,
  by_block, by_tx, by_persist, Reach, here, turn,
}
use block_ex.System.Frames.{block_frame, tx_frame}
use block_ex.System.Honest.{
  Unless, IsWithin, TxsDone, IsHonest, block_replaced, tx_replaced, persister_ended, sched_changed,
  reached-eq-limit, not_reached,
}

module _ (cfg : Settings) (start : ℤ) (env : Env) (json : Json) (dec : Decoders json) where
  BlockStep-IsHonest :
      {s t : State} → BlockStep env json dec cfg s t → IsHonest cfg start s → IsHonest cfg start t
  BlockStep-IsHonest {s} (take_sched xs ys hs m rest free there e) h = rw e (
      block_replaced cfg start s _ xs ys (idle hs) (busy hs m) free refl
        (block_frame s rest (xs ++ busy hs m ∷ ys) s.blocks s.given_up s.world) (λ a. a) tt
        (λ d. absurd (cc (sym there ∙ d.1))) tt (λ u g. g) h)
  BlockStep-IsHonest {s} (make_block xs ys hs hs' m fuel b w has made e) h = rw e (
      block_replaced cfg start s _ xs ys (busy hs m) (full hs' b) has refl
        (block_frame s s.sched (xs ++ full hs' b ∷ ys) s.blocks s.given_up w) (λ a. a) tt (λ d. d)
        tt (λ u g. g) h)
  BlockStep-IsHonest {s} (send_block xs ys hs b has room e) h = rw e (
      block_replaced cfg start s _ xs ys (full hs b) (idle hs) has refl
        (block_frame s s.sched (xs ++ idle hs ∷ ys) (s.blocks ++ b ∷ []) s.given_up s.world)
        (λ a. a) tt (λ d. d) tt (λ u g. g) h)
  BlockStep-IsHonest {s} (fail_block xs ys hs hs' m fuel x w has made e) h = rw e (
      block_replaced cfg start s _ xs ys (busy hs m) (ended (failure x)) has refl
        (block_frame s s.sched (xs ++ ended (failure x) ∷ ys) s.blocks (s.given_up ++ m.height ∷ [])
          w)
        (λ a. a) tt (λ d. d) tt (λ u g. absurd u) h)
  BlockStep-IsHonest {s} (close_block xs ys hs r free empty done e) h = rw e (
      block_replaced cfg start s _ xs ys (idle hs) (ended success) free refl
        (block_frame s s.sched (xs ++ ended success ∷ ys) s.blocks s.given_up s.world) (λ a. a) tt
        (λ d. d) (r, empty, done) (λ u g. g) h)

  TxStep-IsHonest :
      {s t : State} → TxStep env json dec cfg s t → IsHonest cfg start s → IsHonest cfg start t
  TxStep-IsHonest {s} (take_block xs ys b rest free there e) h = rw e (
      tx_replaced cfg start s _ xs ys (idle tt) (busy tt b) free refl
        (tx_frame s rest (xs ++ busy tt b ∷ ys) s.txs s.given_up s.world) (λ a. a) tt still tt
        (λ p. refl) (λ a u g. g) h)
    where
      still : TxsDone s → TxsDone (record s { tx_workers = xs ++ busy tt b ∷ ys; blocks = rest })
      still (inl (empty, all)) = absurd (cc (sym there ∙ empty))
      still (inr failed) = inr failed
  TxStep-IsHonest {s} (make_tx xs ys b fuel x w has made e) h = rw e (
      tx_replaced cfg start s _ xs ys (busy tt b) (full tt x) has refl
        (tx_frame s s.blocks (xs ++ full tt x ∷ ys) s.txs s.given_up w) (λ a. a) tt (λ d. d) tt
        (λ p. refl) (λ a u g. g) h)
  TxStep-IsHonest {s} (send_tx xs ys x has writes room e) h = rw e (
      tx_replaced cfg start s _ xs ys (full tt x) (idle tt) has refl
        (tx_frame s s.blocks (xs ++ idle tt ∷ ys) (s.txs ++ x ∷ []) s.given_up s.world) (λ a. a) tt
        (λ d. d) tt (λ p. absurd (cc (sym writes ∙ p))) (λ a u g. g) h)
  TxStep-IsHonest {s} (fail_tx xs ys b fuel x w has made e) h = rw e (
      tx_replaced cfg start s _ xs ys (busy tt b) (ended (failure x)) has refl
        (tx_frame s s.blocks (xs ++ ended (failure x) ∷ ys) s.txs (s.given_up ++ b.height ∷ []) w)
        (λ a. a) tt (λ d. d) tt (λ p. refl) (λ a u g. absurd u) h)
  TxStep-IsHonest {s} (refuse_tx xs ys x success has done e) h =
      absurd (All-found HasEnded s.tx_workers xs ys (full tt x) has (h.persist_done done).1)
  TxStep-IsHonest {s} (refuse_tx xs ys x (failure q) has done e) h = rw e (
      tx_replaced cfg start s _ xs ys (full tt x) (ended success) has refl
        (tx_frame s s.blocks (xs ++ ended success ∷ ys) s.txs (s.given_up ++ x.height ∷ []) s.world)
        (λ a. a) tt (λ d. d) (inr (q, done)) (λ p. refl) (λ a u g. absurd (a.2 q done)) h)
  TxStep-IsHonest {s} (close_tx xs ys free empty all e) h = rw e (
      tx_replaced cfg start s _ xs ys (idle tt) (ended success) free refl
        (tx_frame s s.blocks (xs ++ ended success ∷ ys) s.txs s.given_up s.world) (λ a. a) tt
        (λ d. d) (inl (empty, all)) (λ p. refl) (λ a u g. g) h)

  -- The persister still runs, so that only a transaction worker behind the last block ends well.
  PersistStep-IsHonest :
      {s t : State} → PersistStep env json dec cfg s t → IsHonest cfg start s → IsHonest cfg start t
  PersistStep-IsHonest {s} (persist x rest prepared w writes there made done e) h = rw e (record {
    within = h.within;
    next = h.next;
    blocks_done = h.blocks_done;
    txs_done = h.txs_done;
    persist_done = λ p. absurd (cc (sym writes ∙ p));
    nothing_lost = h.nothing_lost;
  })
  PersistStep-IsHonest {s} (fail_prepare x rest q writes there made e) h = rw e (record {
    within = h.within;
    next = h.next;
    blocks_done = h.blocks_done;
    txs_done = persister_ended cfg start s (failure q) writes h.txs_done;
    persist_done = λ p. absurd (cc p);
    nothing_lost = λ a. absurd (a.2 q refl);
  })
  PersistStep-IsHonest {s} (fail_persist x rest prepared q w writes there made done e) h =
      rw e (record {
        within = h.within;
        next = h.next;
        blocks_done = h.blocks_done;
        txs_done = persister_ended cfg start s (failure q) writes h.txs_done;
        persist_done = λ p. absurd (cc p);
        nothing_lost = λ a. absurd (a.2 q refl);
      })
  PersistStep-IsHonest {s} (close_persist writes empty all e) h = rw e (record {
    within = h.within;
    next = h.next;
    blocks_done = h.blocks_done;
    txs_done = persister_ended cfg start s (success) writes h.txs_done;
    persist_done = λ p. (empty, all);
    nothing_lost = λ a. h.nothing_lost (a.0, a.1, λ q p. cc (sym writes ∙ p));
  })

  SchedStep-IsHonest :
      {s t : State} → SchedStep env json dec cfg s t → IsHonest cfg start s → IsHonest cfg start t
  SchedStep-IsHonest {s} (poll polls m w at limit made e) h = rw e (
      sched_changed cfg start s s.next_height s.processed (holding m) s.sched w
        (λ r f. cc (sym at ∙ f))
        (λ k p. not_reached cfg start cfg.scheduler.limit s.processed k limit p) h.next h)
  SchedStep-IsHonest {s} (send_sched m at room e) h = rw e (
      sched_changed cfg start s (s.next_height +ℤ pos 1) (s.processed + 1) polling
        (s.sched ++ m ∷ []) s.world (λ r f. cc (sym at ∙ f)) (one_more at h.within)
        (rw h.next (one_further s.processed)) h)
    where
      one_more :
          s.scheduler ≡ holding m
          → IsWithin cfg.scheduler.limit s.processed s.scheduler
          → (k : ℕ) → cfg.scheduler.limit ≡ some k
          → s.processed + 1 ≤ k
      one_more at w k p = omega (arith, (rw at at w) k p)

      one_further : (n : ℕ) → start +ℤ pos n +ℤ pos 1 ≡ start +ℤ pos (n + 1)
      one_further n = omega int_laws
  SchedStep-IsHonest {s} (fail_sched polls x w at limit made e) h = rw e (
      sched_changed cfg start s s.next_height s.processed (finished (failure x)) s.sched w
        (λ r f. cc (sym at ∙ f)) tt h.next h)
  SchedStep-IsHonest {s} (close_sched at limit e) h = rw e (
      sched_changed cfg start s s.next_height s.processed (finished success) s.sched s.world
        (λ r f. cc (sym at ∙ f))
        (reached-eq-limit cfg start cfg.scheduler.limit s.processed limit (rw at at h.within))
        h.next h)

  Step-IsHonest :
      {s t : State} → Step env json dec cfg s t → IsHonest cfg start s → IsHonest cfg start t
  Step-IsHonest (by_sched st) h = SchedStep-IsHonest st h
  Step-IsHonest (by_block st) h = BlockStep-IsHonest st h
  Step-IsHonest (by_tx st) h = TxStep-IsHonest st h
  Step-IsHonest (by_persist st) h = PersistStep-IsHonest st h

  pub Reach-IsHonest :
      (w : World) {s : State} → Reach env json dec cfg start w s → IsHonest cfg start s
  Reach-IsHonest w here = record {
    within = λ k p. omega arith;
    next = omega int_laws;
    blocks_done =
        All-replicate (Unless _) cfg.pipeline.block_workers
          (idle (Header.new cfg.caps cfg.header_batch)) tt;
    txs_done = All-replicate (Unless _) cfg.pipeline.tx_workers (idle tt) tt;
    persist_done = λ p. absurd (cc p);
    nothing_lost = λ a. refl;
  }
  Reach-IsHonest w (turn r st) = Step-IsHonest st (Reach-IsHonest w r)
