-- ===== src/System.antt =====
-- ingestor/src/cli.rs and the function `run` of ingestor/src/bin/ingestor.rs: the settings of a run.
-- The tasks that it starts are in the children.
pub mod Tasks
pub mod Turns
pub mod Outcome
pub mod Moves
pub mod Accounting
pub mod Bounds
pub mod Frames
pub mod Honest
pub mod Complete
pub mod Stall
pub mod Alive
pub mod Headed
pub mod Restart
use block_ex.Prelude.{
  ℕ, ◌+◌, ◌-◌, ◌<◌, ◌≡◌, min, max, not, Bool, true, false, Option, none, some, List, [], ◌∷◌, ◌++◌,
  map, String, length, if◌then◌else◌,
}
use block_ex.Prelude.Int.{ℤ, pos, ◌+ℤ◌}
use block_ex.Prelude.Words.{i64_try_from}
use block_ex.Result.{Result, Error, ok, err, ok_or, overflow}
use block_ex.Result
use block_ex.External.{Json}
use block_ex.Rpc.{Capabilities}
use block_ex.Pipeline.{SchedMsg, BlockMsg, TxMsg, PipelineCfg, Channels, make_channels}
use block_ex.World.{Env, World}
use block_ex.Limits.{eff_concurrency}
use block_ex.Header.{HeaderFetcher}
use block_ex.Sched
use block_ex.Sched.{next_msg, reached}
use block_ex.Block.{process_job}
use block_ex.Txs.{process_block}
use block_ex.Persist
use block_ex.Persist.{persist_block}
use block_ex.Persist.Prepare.{Decoders, PreparedTx, prepare_block}

pub record RunArgs : Type 0 where
  pub database_url : String
  pub rpc_url : String
  pub finality_window : ℕ
  pub ingest_concurrency : ℕ
  pub rpc_rps : ℕ
  pub bootstrap : Bool
  pub start_height : Option ℕ
  pub limit : Option ℕ
  pub zmq_url : String

-- What `run` hands to its tasks.
pub record Settings : Type 0 where
  pub pipeline : PipelineCfg
  pub concurrency : ℕ
  pub caps : Capabilities
  pub header_batch : ℕ
  pub scheduler : Sched.Config
  pub persister : Persist.Config

-- `match args.start_height`
unfoldable pub start_of : Option ℕ → Result (Option ℤ)
start_of none = ok none
start_of (some start) = Result.◌>>=◌ (ok_or overflow (i64_try_from start)) (λ h. ok (some h))

unfoldable pub settings : RunArgs → Capabilities → Result Settings
unfolding start_of
settings args caps =
    let conc = eff_concurrency args.ingest_concurrency args.bootstrap in
    Result.◌>>=◌ (start_of args.start_height) λ start_height. ok (record {
      pipeline = record {
        sched_buffer = 512;
        block_workers = min (max conc 1) 4;
        tx_workers = max conc 1;
      };
      concurrency = conc;
      caps = caps;
      header_batch = if caps.headers_range then 200 else 1;
      scheduler = record {
        start_height = start_height;
        limit = args.limit;
        finality_window = args.finality_window;
      };
      persister = record {
        finality_window = args.finality_window;
        do_analytics = not args.bootstrap;
      };
    })
