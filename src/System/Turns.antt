-- ===== src/System/Turns.antt =====
-- The loops of the tasks that bin/ingestor.rs starts, turn by turn. The turns of different tasks come
-- in any order. In a turn a task does one thing: it takes a message, works on it, or sends what it has
-- made of it, for which there has to be room.
use block_ex.Prelude.{
  ℕ, ◌+◌, ◌<◌, ◌≡◌, true, false, none, some, List, [], ◌∷◌, ◌++◌, map, All, length,
}
use block_ex.Prelude.Int.{ℤ, pos, ◌+ℤ◌}
use block_ex.Result.{Error, ok, err}
use block_ex.External.{Json}
use block_ex.Pipeline.{SchedMsg, BlockMsg, TxMsg, Channels, make_channels}
use block_ex.World.{Env, World}
use block_ex.Header.{HeaderFetcher}
use block_ex.Sched.{next_msg, reached}
use block_ex.Block.{process_job}
use block_ex.Txs.{process_block}
use block_ex.Persist.{persist_block}
use block_ex.Persist.Prepare.{Decoders, PreparedTx, prepare_block}
use block_ex.System.{Settings}
use block_ex.System.Tasks.{
  Outcome, success, failure, polling, holding, finished, BlockWorker, TxWorker, idle, busy, full,
  ended, State, initial, HasEnded,
}

module _ (env : Env) (json : Json) (dec : Decoders json) (cfg : Settings) where
  abbrev pub channels : Channels
  channels = make_channels cfg.pipeline

  -- The scheduler. Its receivers are not gone before it has ended, since `run` keeps one.
  pub data SchedStep (s t : State) : Type 0 where
    poll :
        (polls : ℕ) (m : SchedMsg) (w : World)
        → s.scheduler ≡ polling
        → reached cfg.scheduler.limit s.processed ≡ false
        → next_msg env cfg.scheduler polls s.next_height s.world ≡ (ok m, w)
        → t ≡ record s { scheduler = holding m; world = w }
        → SchedStep s t
    send_sched :
        (m : SchedMsg)
        → s.scheduler ≡ holding m
        → length s.sched < channels.sched
        → t ≡ record s {
          scheduler = polling;
          sched = s.sched ++ m ∷ [];
          processed = s.processed + 1;
          next_height = s.next_height +ℤ pos 1;
        }
        → SchedStep s t
    fail_sched :
        (polls : ℕ) (e : Error) (w : World)
        → s.scheduler ≡ polling
        → reached cfg.scheduler.limit s.processed ≡ false
        → next_msg env cfg.scheduler polls s.next_height s.world ≡ (err e, w)
        → t ≡ record s { scheduler = finished (failure e); world = w }
        → SchedStep s t
    close_sched :
        s.scheduler ≡ polling
        → reached cfg.scheduler.limit s.processed ≡ true
        → t ≡ record s { scheduler = finished success }
        → SchedStep s t

  -- A block worker, which keeps its headers. A failure ends it, and so does an empty channel once the
  -- scheduler has ended. `run` keeps a receiver of what it sends.
  pub data BlockStep (s t : State) : Type 0 where
    take_sched :
        (xs ys : List BlockWorker) (hs : HeaderFetcher) (m : SchedMsg) (rest : List SchedMsg)
        → s.block_workers ≡ xs ++ idle hs ∷ ys
        → s.sched ≡ m ∷ rest
        → t ≡ record s { block_workers = xs ++ busy hs m ∷ ys; sched = rest }
        → BlockStep s t
    make_block :
        (xs ys : List BlockWorker) (hs hs' : HeaderFetcher) (m : SchedMsg) (fuel : ℕ) (b : BlockMsg)
        (w : World)
        → s.block_workers ≡ xs ++ busy hs m ∷ ys
        → process_job env json fuel cfg.scheduler.finality_window m hs s.world ≡ (ok b, hs', w)
        → t ≡ record s { block_workers = xs ++ full hs' b ∷ ys; world = w }
        → BlockStep s t
    send_block :
        (xs ys : List BlockWorker) (hs : HeaderFetcher) (b : BlockMsg)
        → s.block_workers ≡ xs ++ full hs b ∷ ys
        → length s.blocks < channels.block
        → t ≡ record s { block_workers = xs ++ idle hs ∷ ys; blocks = s.blocks ++ b ∷ [] }
        → BlockStep s t
    fail_block :
        (xs ys : List BlockWorker) (hs hs' : HeaderFetcher) (m : SchedMsg) (fuel : ℕ) (e : Error)
        (w : World)
        → s.block_workers ≡ xs ++ busy hs m ∷ ys
        → process_job env json fuel cfg.scheduler.finality_window m hs s.world ≡ (err e, hs', w)
        → t ≡ record s {
          block_workers = xs ++ ended (failure e) ∷ ys;
          given_up = s.given_up ++ m.height ∷ [];
          world = w;
        }
        → BlockStep s t
    close_block :
        (xs ys : List BlockWorker) (hs : HeaderFetcher) (r : Outcome)
        → s.block_workers ≡ xs ++ idle hs ∷ ys
        → s.sched ≡ []
        → s.scheduler ≡ finished r
        → t ≡ record s { block_workers = xs ++ ended success ∷ ys }
        → BlockStep s t

  -- A transaction worker. It ends with no error when there are no more messages to come, and also
  -- when the persister, which has the only receiver, has ended.
  pub data TxStep (s t : State) : Type 0 where
    take_block :
        (xs ys : List TxWorker) (b : BlockMsg) (rest : List BlockMsg)
        → s.tx_workers ≡ xs ++ idle tt ∷ ys
        → s.blocks ≡ b ∷ rest
        → t ≡ record s { tx_workers = xs ++ busy tt b ∷ ys; blocks = rest }
        → TxStep s t
    make_tx :
        (xs ys : List TxWorker) (b : BlockMsg) (fuel : ℕ) (x : TxMsg) (w : World)
        → s.tx_workers ≡ xs ++ busy tt b ∷ ys
        → process_block env fuel cfg.concurrency b s.world ≡ (ok x, w)
        → t ≡ record s { tx_workers = xs ++ full tt x ∷ ys; world = w }
        → TxStep s t
    send_tx :
        (xs ys : List TxWorker) (x : TxMsg)
        → s.tx_workers ≡ xs ++ full tt x ∷ ys
        → s.persister ≡ none
        → length s.txs < channels.tx
        → t ≡ record s { tx_workers = xs ++ idle tt ∷ ys; txs = s.txs ++ x ∷ [] }
        → TxStep s t
    fail_tx :
        (xs ys : List TxWorker) (b : BlockMsg) (fuel : ℕ) (e : Error) (w : World)
        → s.tx_workers ≡ xs ++ busy tt b ∷ ys
        → process_block env fuel cfg.concurrency b s.world ≡ (err e, w)
        → t ≡ record s {
          tx_workers = xs ++ ended (failure e) ∷ ys;
          given_up = s.given_up ++ b.height ∷ [];
          world = w;
        }
        → TxStep s t
    refuse_tx :
        (xs ys : List TxWorker) (x : TxMsg) (r : Outcome)
        → s.tx_workers ≡ xs ++ full tt x ∷ ys
        → s.persister ≡ some r
        → t ≡ record s {
          tx_workers = xs ++ ended success ∷ ys;
          given_up = s.given_up ++ x.height ∷ [];
        }
        → TxStep s t
    close_tx :
        (xs ys : List TxWorker)
        → s.tx_workers ≡ xs ++ idle tt ∷ ys
        → s.blocks ≡ []
        → All HasEnded s.block_workers
        → t ≡ record s { tx_workers = xs ++ ended success ∷ ys }
        → TxStep s t

  -- The persister, which does all its work on a message in one turn. When it fails, its receiver goes, and
  -- with it the messages that wait: their heights are given up like its own, of which the block may stand
  -- in the database already, when what failed came after its transaction.
  pub data PersistStep (s t : State) : Type 0 where
    persist :
        (x : TxMsg) (rest : List TxMsg) (prepared : List PreparedTx) (w : World)
        → s.persister ≡ none
        → s.txs ≡ x ∷ rest
        → prepare_block env.hex json dec x cfg.persister.do_analytics ≡ ok prepared
        → persist_block env cfg.persister x prepared s.world ≡ (ok tt, w)
        → t ≡ record s { txs = rest; persisted = s.persisted ++ x.height ∷ []; world = w }
        → PersistStep s t
    fail_prepare :
        (x : TxMsg) (rest : List TxMsg) (e : Error)
        → s.persister ≡ none
        → s.txs ≡ x ∷ rest
        → prepare_block env.hex json dec x cfg.persister.do_analytics ≡ err e
        → t ≡ record s {
          txs = [];
          given_up = s.given_up ++ map (λ (m : TxMsg). m.height) s.txs;
          persister = some (failure e);
        }
        → PersistStep s t
    fail_persist :
        (x : TxMsg) (rest : List TxMsg) (prepared : List PreparedTx) (e : Error) (w : World)
        → s.persister ≡ none
        → s.txs ≡ x ∷ rest
        → prepare_block env.hex json dec x cfg.persister.do_analytics ≡ ok prepared
        → persist_block env cfg.persister x prepared s.world ≡ (err e, w)
        → t ≡ record s {
          txs = [];
          given_up = s.given_up ++ map (λ (m : TxMsg). m.height) s.txs;
          persister = some (failure e);
          world = w;
        }
        → PersistStep s t
    close_persist :
        s.persister ≡ none
        → s.txs ≡ []
        → All HasEnded s.tx_workers
        → t ≡ record s { persister = some success }
        → PersistStep s t

  pub data Step (s t : State) : Type 0 where
    by_sched : SchedStep s t → Step s t
    by_block : BlockStep s t → Step s t
    by_tx : TxStep s t → Step s t
    by_persist : PersistStep s t → Step s t

  -- What the turns lead to from a state.
  pub data Steps (s : State) : State → Type 0 where
    here : Steps s s
    turn : {t u : State} → Steps s t → Step t u → Steps s u

  abbrev pub Reach : ℤ → World → State → Type 0
  Reach start w = Steps (initial cfg start w)
