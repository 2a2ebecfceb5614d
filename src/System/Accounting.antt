-- ===== src/System/Accounting.antt =====
-- bin/ingestor.rs: where the heights are that the scheduler has sent.
use block_ex.Prelude.{
  ℕ, ◌+◌, ◌≤◌, ◌≡◌, inl, inr, refl, sym, ap, ◌∙◌, ◌&&◌, List, [], ◌∷◌, ◌++◌, map, arith, All,
  if◌then◌else◌,
}
use block_ex.Prelude.Int.{ℤ, pos, ◌+ℤ◌, ◌≤ℤ◌, int_laws}
use block_ex.Prelude.Order.{leb_ℤ}
use block_ex.Prelude.Counts.{count, once, count-snoc, count-map_cons}
use block_ex.Prelude.Totals.{total-replace, total-replicate, total_zero}
use block_ex.External.{Json}
use block_ex.Pipeline.{SchedMsg, TxMsg}
use block_ex.World.{Env, World}
use block_ex.Header
use block_ex.Header.{HeaderFetcher}
use block_ex.Header.Ranges.{AnswersHeight}
use block_ex.Persist.Prepare.{Decoders}
use block_ex.System.{Settings}
use block_ex.System.Tasks.{BlockWorker, TxWorker, idle, busy, full, ended, State, initial, HasEnded}
use block_ex.System.Turns.{Reach, here, turn}
use block_ex.System.Moves.{occurrences, IsNext, Carries, Step-Carries, at_block, at_tx}

-- One message for each height from the first on that was sent, and none for another.
abbrev pub IsAccounted : ℤ → State → Type 0
IsAccounted start s =
    (h : ℤ) → occurrences h s ≡ (if leb_ℤ start h && leb_ℤ (h +ℤ pos 1) s.next_height then 1 else 0)

module _ (env : Env) (json : Json) (dec : Decoders json) (cfg : Settings)
    (answers : AnswersHeight env) where
  below_next :
      (start next h : ℤ)
      → start ≤ℤ next
      → (if leb_ℤ start h && leb_ℤ (h +ℤ pos 1) (next +ℤ pos 1) then 1 else 0)
        ≡ (if leb_ℤ start h && leb_ℤ (h +ℤ pos 1) next then 1 else 0) + once h next
  unfolding ◌+ℤ◌ once
  below_next start next h p = ground arith

  none_yet :
      (start h : ℤ) → ◌≡◌ {A = ℕ} 0 (if leb_ℤ start h && leb_ℤ (h +ℤ pos 1) start then 1 else 0)
  unfolding ◌+ℤ◌
  none_yet start h = ground arith

  -- The invariant: the first height is not above the next, the scheduler holds a message for the next
  -- height, and the heights between are accounted for.
  record HasGrown (start : ℤ) (s : State) : Type 0 where
    low : start ≤ℤ s.next_height
    holds : IsNext s.next_height s.scheduler
    all : IsAccounted start s

  Carries-HasGrown : (start : ℤ) (s t : State) → Carries s t → HasGrown start s → HasGrown start t
  Carries-HasGrown start s t c g = elim c.moved [
    | inl (same, k) ↦ record {
      low = rw same g.low;
      holds = c.holds_next;
      all = λ h. k h ∙ g.all h ∙ rw same refl;
    }
    | inr (same, k) ↦ record {
      low = rw same (later start s.next_height g.low);
      holds = c.holds_next;
      all = λ h.
          k h
          ∙ ap (λ (n : ℕ). n + once h s.next_height) (g.all h)
          ∙ sym (below_next start s.next_height h g.low)
          ∙ rw same refl;
    }
  ]
    where
      later : (a b : ℤ) → a ≤ℤ b → a ≤ℤ b +ℤ pos 1
      later a b p = omega int_laws

  none_at_first :
      (start h : ℤ) (w : World)
      → occurrences h (initial cfg start w)
        ≡ (if leb_ℤ start h && leb_ℤ (h +ℤ pos 1) start then 1 else 0)
  unfolding count
  none_at_first start h w = omega (
    arith,
    none_yet start h,
    total-replicate (at_block h) cfg.pipeline.block_workers
        (idle (Header.new cfg.caps cfg.header_batch)) refl,
    total-replicate (at_tx h) cfg.pipeline.tx_workers (idle tt) refl,
  )

  Reach-HasGrown :
      (start : ℤ) (w : World) {s : State} → Reach env json dec cfg start w s → HasGrown start s
  Reach-HasGrown start w here = record {
    low = omega arith;
    holds = tt;
    all = λ h. none_at_first start h w;
  }
  Reach-HasGrown start w (turn {t} {u} r st) =
      let g = Reach-HasGrown start w r in
      Carries-HasGrown start t u (Step-Carries env json dec cfg answers st g.holds) g

  -- Where the daemon answers a single request for a height by the header of that height: whatever
  -- order the tasks take their turns in, and whatever fails, there is at every moment one message
  -- for each height from the first to the one before the next, in a channel, in the hands of a
  -- worker, written or given up, and there is none for another height. Given up are the heights on which
  -- a task failed, also where the block was stored before, those that a worker could not send on, and those
  -- that waited for the persister when it failed.
  pub Reach-IsAccounted :
      (start : ℤ) (w : World) {s : State} → Reach env json dec cfg start w s → IsAccounted start s
  Reach-IsAccounted start w r = let g = Reach-HasGrown start w r in g.all

  none_of_block : (h : ℤ) (x : BlockWorker) → HasEnded x → at_block h x ≡ 0
  none_of_block h (ended r) a = refl
  none_of_block h (idle hs) a = refl
  none_of_block h (busy hs m) a = absurd a
  none_of_block h (full hs b) a = absurd a

  none_of_tx : (h : ℤ) (x : TxWorker) → HasEnded x → at_tx h x ≡ 0
  none_of_tx h (ended r) a = refl
  none_of_tx h (idle u) a = refl
  none_of_tx h (busy u b) a = absurd a
  none_of_tx h (full u x) a = absurd a

  -- When the channels are empty, the workers have ended and nothing was given up, each height that was
  -- sent was written once, and no other height was written.
  pub drained :
      (start : ℤ) (w : World) {s : State}
      → Reach env json dec cfg start w s
      → s.sched ≡ []
      → All HasEnded s.block_workers
      → s.blocks ≡ []
      → All HasEnded s.tx_workers
      → s.txs ≡ []
      → s.given_up ≡ []
      → (h : ℤ)
      → count h s.persisted ≡ (if leb_ℤ start h && leb_ℤ (h +ℤ pos 1) s.next_height then 1 else 0)
  unfolding count
  drained start w {s} r a b c d e f h = omega (
    arith,
    Reach-IsAccounted start w r h,
    ap (λ l. count h (map (λ m. m.height) l)) a,
    total_zero _ (at_block h) s.block_workers (none_of_block h) b,
    ap (λ l. count h (map (λ m. m.height) l)) c,
    total_zero _ (at_tx h) s.tx_workers (none_of_tx h) d,
    ap (λ l. count h (map (λ m. m.height) l)) e,
    ap (count h) f,
  )

  once_same : (h : ℤ) → once h h ≡ 1
  unfolding once
  once_same h = ground arith

  one_at_most : (start next h : ℤ) → (if leb_ℤ start h && leb_ℤ (h +ℤ pos 1) next then 1 else 0) ≤ 1
  one_at_most start next h = ground arith

  -- Nothing of a height that a block worker still has, has been written, nor will the persister's
  -- next message write it.
  pub not_written :
      (start : ℤ) (w : World) {s : State} (xs ys : List BlockWorker) (hs : HeaderFetcher)
      (m : SchedMsg) (x : TxMsg) (rest : List TxMsg)
      → Reach env json dec cfg start w s
      → s.block_workers ≡ xs ++ busy hs m ∷ ys
      → s.txs ≡ x ∷ rest
      → count m.height (s.persisted ++ x.height ∷ []) ≡ 0
  not_written start w {s} xs ys hs m x rest r held there = omega (
    arith,
    one_at_most start s.next_height m.height,
    Reach-IsAccounted start w r m.height,
    total-replace (at_block m.height) s.block_workers xs ys (busy hs m) (idle hs) held,
    count-map_cons (λ (x : TxMsg). x.height) m.height s.txs rest x there,
    count-snoc m.height x.height s.persisted,
    once_same m.height,
  )
