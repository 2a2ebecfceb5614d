-- ===== src/System/Headed.antt =====
-- bin/ingestor.rs: the messages behind the block workers have the headers of their heights.
use block_ex.Prelude.{ℕ, ◌≡◌, refl, ap, some, List, [], ◌∷◌, ◌++◌, arith, All}
use block_ex.Prelude.Int.{ℤ, pos}
use block_ex.Prelude.Words.{u64_try_from}
use block_ex.Result.{Result, ok}
use block_ex.External.{Json}
use block_ex.Rpc.{BlockHeader}
use block_ex.Pipeline.{SchedMsg, BlockMsg, TxMsg}
use block_ex.World.{Env, World}
use block_ex.World.Laws.{>>=-eq-ok}
use block_ex.Header
use block_ex.Header.{HeaderFetcher}
use block_ex.Header.Ranges.{AnswersHeight}
use block_ex.Block.{process_job}
use block_ex.Block.Job.{process_job-ok}
use block_ex.Txs.{process_block, fetch_transactions}
use block_ex.Persist.Prepare.{Decoders}
use block_ex.Prelude.Totals.{All-found, All-replace, All-replicate}
use block_ex.System.{Settings}
use block_ex.System.Tasks.{BlockWorker, TxWorker, idle, busy, full, ended, success, failure, State}
use block_ex.System.Turns.{
  SchedStep, poll, send_sched, fail_sched, close_sched, BlockStep, take_sched, make_block,
  send_block, fail_block, close_block, TxStep, take_block, make_tx, send_tx, fail_tx, refuse_tx,
  close_tx, PersistStep, persist, fail_prepare, fail_persist, close_persist, Step, by_sched,
  by_block, by_tx, by_persist, Reach, here, turn,
}

-- The header is that of the message's height.
abbrev pub IsHeaded : ℤ → BlockHeader → Type 0
IsHeaded h header = u64_try_from h ≡ some header.height

abbrev pub BlockIsHeaded : BlockMsg → Type 0
BlockIsHeaded b = IsHeaded b.height b.header

abbrev pub TxIsHeaded : TxMsg → Type 0
TxIsHeaded x = IsHeaded x.height x.header

-- So is that of what a worker has.
abbrev pub BlockWorkerIsHeaded : BlockWorker → Type 0
BlockWorkerIsHeaded (full hs b) = BlockIsHeaded b
BlockWorkerIsHeaded (idle hs) = Unit
BlockWorkerIsHeaded (busy hs m) = Unit
BlockWorkerIsHeaded (ended r) = Unit

abbrev pub TxWorkerIsHeaded : TxWorker → Type 0
TxWorkerIsHeaded (busy u b) = BlockIsHeaded b
TxWorkerIsHeaded (full u x) = TxIsHeaded x
TxWorkerIsHeaded (idle u) = Unit
TxWorkerIsHeaded (ended r) = Unit

-- And so is that of each message that a block worker has made.
pub record AreHeaded (s : State) : Type 0 where
  pub block_workers : All BlockWorkerIsHeaded s.block_workers
  pub blocks : All BlockIsHeaded s.blocks
  pub tx_workers : All TxWorkerIsHeaded s.tx_workers
  pub txs : All TxIsHeaded s.txs

module _ {ℓ κ} {A : Type ℓ} (P : A → Type κ) where
  All-snoc : (xs : List A) (x : A) → All P xs → P x → All P (xs ++ x ∷ [])
  All-snoc [] x h p = (p, tt)
  All-snoc (y ∷ xs) x h p = (h.0, All-snoc xs x h.1 p)

process_block-header :
    (env : Env) (fuel n : ℕ) (b : BlockMsg) (w : World) {x : TxMsg} {w' : World}
    → process_block env fuel n b w ≡ (ok x, w')
    → (x.height ≡ b.height) × (x.header ≡ b.header)
unfolding process_block
process_block-header env fuel n b w h =
    let (pairs, w₁, fetched, rest) = >>=-eq-ok (fetch_transactions env fuel b.tx_hashes n) _ w h in
    let e = ap (λ (r : Result TxMsg × World). r.0) rest in (ground (arith, e), cc e)

pub is_pos : (h : ℤ) (k : ℕ) → u64_try_from h ≡ some k → h ≡ pos k
unfolding u64_try_from
is_pos h k e = ground arith

module _ (env : Env) (json : Json) (dec : Decoders json) (cfg : Settings)
    (answers : AnswersHeight env) where
  made-IsHeaded :
      (fuel : ℕ) (m : SchedMsg) (hs : HeaderFetcher) (w : World) {b : BlockMsg}
      {hs' : HeaderFetcher} {w' : World}
      → process_job env json fuel cfg.scheduler.finality_window m hs w ≡ (ok b, hs', w')
      → IsHeaded b.height b.header
  made-IsHeaded fuel m hs w {b} made =
      let found = process_job-ok env json answers fuel cfg.scheduler.finality_window m hs w made in
      let p = found.passed_on in rw (p.height, p.header_kept) found.at_height

  same :
      (s t : State)
      → t.block_workers ≡ s.block_workers
      → t.blocks ≡ s.blocks
      → t.tx_workers ≡ s.tx_workers
      → t.txs ≡ s.txs
      → AreHeaded s
      → AreHeaded t
  same s t e f g h a = record {
    block_workers = rw e a.block_workers;
    blocks = rw f a.blocks;
    tx_workers = rw g a.tx_workers;
    txs = rw h a.txs;
  }

  SchedStep-AreHeaded : {s t : State} → SchedStep env json dec cfg s t → AreHeaded s → AreHeaded t
  SchedStep-AreHeaded {s} (poll polls m w at limit made e) a = rw e (same s _ refl refl refl refl a)
  SchedStep-AreHeaded {s} (send_sched m at room e) a = rw e (same s _ refl refl refl refl a)
  SchedStep-AreHeaded {s} (fail_sched polls x w at limit made e) a =
      rw e (same s _ refl refl refl refl a)
  SchedStep-AreHeaded {s} (close_sched at limit e) a = rw e (same s _ refl refl refl refl a)

  with_block_workers :
      {s : State} (ws : List BlockWorker)
      → AreHeaded s
      → All BlockWorkerIsHeaded ws
      → AreHeaded (record s { block_workers = ws })
  with_block_workers ws a p = record {
    block_workers = p;
    blocks = a.blocks;
    tx_workers = a.tx_workers;
    txs = a.txs;
  }

  with_tx_workers :
      {s : State} (ws : List TxWorker)
      → AreHeaded s
      → All TxWorkerIsHeaded ws
      → AreHeaded (record s { tx_workers = ws })
  with_tx_workers ws a p = record {
    block_workers = a.block_workers;
    blocks = a.blocks;
    tx_workers = p;
    txs = a.txs;
  }

  BlockStep-AreHeaded : {s t : State} → BlockStep env json dec cfg s t → AreHeaded s → AreHeaded t
  BlockStep-AreHeaded {s} (take_sched xs ys hs m rest free there e) a = rw e (
      same (record s { block_workers = xs ++ busy hs m ∷ ys }) _ refl refl refl refl
        (with_block_workers (xs ++ busy hs m ∷ ys) a
          (All-replace _ s.block_workers xs ys (idle hs) (busy hs m) free tt a.block_workers)))
  BlockStep-AreHeaded {s} (make_block xs ys hs hs' m fuel b w has made e) a = rw e (
      same (record s { block_workers = xs ++ full hs' b ∷ ys }) _ refl refl refl refl
        (with_block_workers (xs ++ full hs' b ∷ ys) a (
          All-replace _ s.block_workers xs ys (busy hs m) (full hs' b) has
            (made-IsHeaded fuel m hs s.world made) a.block_workers)))
  BlockStep-AreHeaded {s} (send_block xs ys hs b has room e) a = rw e (record {
    block_workers =
        All-replace _ s.block_workers xs ys (full hs b) (idle hs) has tt a.block_workers;
    blocks =
        All-snoc _ s.blocks b a.blocks
          (All-found BlockWorkerIsHeaded s.block_workers xs ys (full hs b) has a.block_workers);
    tx_workers = a.tx_workers;
    txs = a.txs;
  })
  BlockStep-AreHeaded {s} (fail_block xs ys hs hs' m fuel x w has made e) a = rw e (
      same (record s { block_workers = xs ++ ended (failure x) ∷ ys }) _ refl refl refl refl
        (with_block_workers (xs ++ ended (failure x) ∷ ys) a (
          All-replace _ s.block_workers xs ys (busy hs m) (ended (failure x)) has tt
            a.block_workers)))
  BlockStep-AreHeaded {s} (close_block xs ys hs r free empty done e) a = rw e (
      with_block_workers (xs ++ ended success ∷ ys) a
        (All-replace _ s.block_workers xs ys (idle hs) (ended success) free tt a.block_workers))

  TxStep-AreHeaded : {s t : State} → TxStep env json dec cfg s t → AreHeaded s → AreHeaded t
  TxStep-AreHeaded {s} (take_block xs ys b rest free there e) a =
      let (p, ps) = rw there at a.blocks in
      rw e (record {
        block_workers = a.block_workers;
        blocks = ps;
        tx_workers = All-replace _ s.tx_workers xs ys (idle tt) (busy tt b) free p a.tx_workers;
        txs = a.txs;
      })
  TxStep-AreHeaded {s} (make_tx xs ys b fuel x w has made e) a =
      let (kept, header) = process_block-header env fuel cfg.concurrency b s.world made in
      let p = All-found TxWorkerIsHeaded s.tx_workers xs ys (busy tt b) has a.tx_workers in
      rw e (
        same (record s { tx_workers = xs ++ full tt x ∷ ys }) _ refl refl refl refl
          (with_tx_workers (xs ++ full tt x ∷ ys) a (
            All-replace _ s.tx_workers xs ys (busy tt b) (full tt x) has (rw (kept, header) p)
              a.tx_workers)))
  TxStep-AreHeaded {s} (send_tx xs ys x has writes room e) a = rw e (record {
    block_workers = a.block_workers;
    blocks = a.blocks;
    tx_workers = All-replace _ s.tx_workers xs ys (full tt x) (idle tt) has tt a.tx_workers;
    txs =
        All-snoc _ s.txs x a.txs
          (All-found TxWorkerIsHeaded s.tx_workers xs ys (full tt x) has a.tx_workers);
  })
  TxStep-AreHeaded {s} (fail_tx xs ys b fuel x w has made e) a = rw e (
      same (record s { tx_workers = xs ++ ended (failure x) ∷ ys }) _ refl refl refl refl
        (with_tx_workers (xs ++ ended (failure x) ∷ ys) a
          (All-replace _ s.tx_workers xs ys (busy tt b) (ended (failure x)) has tt a.tx_workers)))
  TxStep-AreHeaded {s} (refuse_tx xs ys x r has done e) a = rw e (
      same (record s { tx_workers = xs ++ ended success ∷ ys }) _ refl refl refl refl
        (with_tx_workers (xs ++ ended success ∷ ys) a
          (All-replace _ s.tx_workers xs ys (full tt x) (ended success) has tt a.tx_workers)))
  TxStep-AreHeaded {s} (close_tx xs ys free empty done e) a = rw e (
      with_tx_workers (xs ++ ended success ∷ ys) a
        (All-replace _ s.tx_workers xs ys (idle tt) (ended success) free tt a.tx_workers))

  with_txs :
      {s : State} (x : TxMsg) (rest : List TxMsg)
      → s.txs ≡ x ∷ rest
      → AreHeaded s
      → AreHeaded (record s { txs = rest })
  with_txs x rest there a = record {
    block_workers = a.block_workers;
    blocks = a.blocks;
    tx_workers = a.tx_workers;
    txs = (rw there at a.txs).1;
  }

  without_txs : {s : State} → AreHeaded s → AreHeaded (record s { txs = [] })
  without_txs a = record {
    block_workers = a.block_workers;
    blocks = a.blocks;
    tx_workers = a.tx_workers;
    txs = tt;
  }

  PersistStep-AreHeaded :
      {s t : State} → PersistStep env json dec cfg s t → AreHeaded s → AreHeaded t
  PersistStep-AreHeaded {s} (persist x rest prepared w writes there made done e) a =
      rw e (same (record s { txs = rest }) _ refl refl refl refl (with_txs x rest there a))
  PersistStep-AreHeaded {s} (fail_prepare x rest q writes there made e) a =
      rw e (same (record s { txs = [] }) _ refl refl refl refl (without_txs a))
  PersistStep-AreHeaded {s} (fail_persist x rest prepared q w writes there made done e) a =
      rw e (same (record s { txs = [] }) _ refl refl refl refl (without_txs a))
  PersistStep-AreHeaded {s} (close_persist writes empty done e) a =
      rw e (same s _ refl refl refl refl a)

  Step-AreHeaded : {s t : State} → Step env json dec cfg s t → AreHeaded s → AreHeaded t
  Step-AreHeaded (by_sched st) a = SchedStep-AreHeaded st a
  Step-AreHeaded (by_block st) a = BlockStep-AreHeaded st a
  Step-AreHeaded (by_tx st) a = TxStep-AreHeaded st a
  Step-AreHeaded (by_persist st) a = PersistStep-AreHeaded st a

  pub Reach-AreHeaded :
      (start : ℤ) (w : World) {s : State} → Reach env json dec cfg start w s → AreHeaded s
  Reach-AreHeaded start w here = record {
    block_workers =
        All-replicate BlockWorkerIsHeaded cfg.pipeline.block_workers
          (idle (Header.new cfg.caps cfg.header_batch)) tt;
    blocks = tt;
    tx_workers = All-replicate TxWorkerIsHeaded cfg.pipeline.tx_workers (idle tt) tt;
    txs = tt;
  }
  Reach-AreHeaded start w (turn r st) = Step-AreHeaded st (Reach-AreHeaded start w r)
