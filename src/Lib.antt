-- ===== src/Lib.antt =====
-- block-ex: an ingestor, which follows a Monero daemon and writes its chain into a database, and an API,
-- which answers requests from that database through a cache.
--
-- The parts. A scheduler (ingestor/src/work_sched.rs) sends one message for each height. Block workers
-- (work_block.rs) fetch the header of the height through a buffer of ranges, compare the hash that it
-- names with the one stored below it, heal a reorganisation (reorg.rs) where they differ, and fetch
-- the block. Transaction workers (work_tx.rs) fetch its transactions in adaptive chunks (fetch.rs). The
-- persister (work_persist.rs) reads them (codec.rs), writes the block in one transaction (store.rs),
-- moves the checkpoint (checkpoint.rs) and refreshes the confirmations of recent blocks.
--
-- How it is modelled. World.antt has the effects. A handler is a function from the world, which is the
-- database, the number of statements and of calls so far and the time, to a result and a world. Any
-- statement may fail, as the environment says by its number, and a transaction that does not commit
-- leaves the database as it was. A call of the daemon is a function of the number of the call, so that
-- the daemon may change its mind. Db.antt has the tables of db/migrations as lists of rows, in the
-- order in which they were inserted, and each SQL statement is a function on them.
--
-- The files and the code, all of it under ingestor/src:
--   Rpc          rpc.rs: the messages and the trait `MoneroRpc`, which the models take as a parameter
--   Client       rpc.rs: `Rpc`, the HTTP client, which gives such a `MoneroRpc`; Client/Wire its messages
--   Codec        codec.rs: `extra_as_hex`, `analyze_tx`, and in Codec/Extra `parse_tx_extra`
--   Store        store.rs: the statements; Store/SoftFacts `upsert_soft_facts_for_block`
--   Checkpoint   checkpoint.rs: `get_state`, `get`, `set`
--   Reorg        reorg.rs: `heal_reorg`; `find_fork` is its loop, `unwind` the body of its transaction
--   Limits       limits.rs: `make_limiter`, `eff_concurrency`
--   Fetch        fetch.rs: `fetch_txs_adaptive`
--   Pipeline     pipeline.rs: the messages
--   Txs          work_tx.rs: `process_block` is what the loop of `run` does with a message
--   Header       work_block.rs: `HeaderFetcher`
--   Block        work_block.rs: `process_height`; `process_job` is the inner loop of `run`
--   Sched        work_sched.rs: `sched_loop` is the loop of `run`
--   Persist      work_persist.rs: `persist_block`; Persist/Prepare `prepare_tx` and `prepare_block`
--   Mempool      mempool.rs: the watcher; `run` takes the events that the socket delivers as a list
--   Analytics    analytics.rs: `backfill`
--   System       bin/ingestor.rs and cli.rs: `settings`; System/Tasks what the tasks of `run` keep between their
--                turns, System/Turns the loops of the tasks, turn by turn, and System/Outcome what `run`
--                waits for and returns; the sizes of its channels are in Pipeline
-- The API, under api/src, is modelled in Api: util.rs and state.rs in Api itself, the views of models.rs in
-- Api/Models, the statements and the handlers of routes.rs in Api/Queries and Api/Routes, and the table of
-- routes in Api/Router. It has an environment and a state of its own, since it shares only the tables with
-- the ingestor. Api/Answers has what a request is answered by without a cache, and Api/Keys, Api/Cached
-- and Api/Serve compare the handlers with it. The cache is an interface, of which the theorem relies on one
-- fact: an entry that is found was stored under its key. Where `ORDER BY` leaves the order of rows open, the
-- model takes that of the table.
-- Probe is `run_probe` of api/src/main.rs, over an interface of the socket, and Probe/Text has the methods of
-- texts that it uses.
-- Prelude, Result, External and World are shared; Tests has a sample chain and runs on it.
--
-- Fuel. `heal_reorg` gives its search two rounds more than the window has blocks, which is enough since
-- the loop counts its steps against the window. `parse_tx_extra` has a round for each byte and one
-- more. `backfill` needs a round for each stored block and one more. The rounds of `fetch_txs_adaptive`, the
-- polls of the scheduler, its rounds without a limit, and the retries of a block worker are bounded by
-- nothing in the code: their fuel is an argument, and `running` is the outcome when it is used up.
--
-- The tasks together are a step relation, `Step`: in a turn the scheduler polls the tip or sends, a worker
-- takes a message, works on it, sends what it has made or ends, and the persister writes a block; the turns
-- of different tasks come in any order. The work on one message is one turn: the statements of two tasks
-- that run at the same time do not interleave. A task that panics is not told from one that fails.
--
-- Machine numbers are kept in range where the code converts them; `as i64` and `as u64` wrap around.
-- The sum of the finality window and 16 in work_persist.rs is taken without its overflow near 2 ^ 63, and
-- the batch of the backfill is a natural number, where the code has an i64.
-- The averages and medians of soft facts are exact quotients, which the database rounds.
--
-- Not modelled: the HTTP library, the sockets and threads, metrics and log lines, the layers and the start of
-- api/src/main.rs, the static document of the API, and the web front end. The crates `hex` and `serde_json`,
-- the derived deserializers of a transaction and of replies, the serializer of the API, its digest, the
-- printing of numbers, their reading but for that of the probe, and single precision floats are parameters.
pub mod Prelude
pub mod Probe
pub mod Api
pub mod Result
pub mod External
pub mod Codec
pub mod Rpc
pub mod Client
pub mod Db
pub mod World
pub mod Store
pub mod Checkpoint
pub mod Reorg
pub mod Limits
pub mod Fetch
pub mod Pipeline
pub mod Txs
pub mod Header
pub mod Sched
pub mod Block
pub mod Persist
pub mod Mempool
pub mod System
pub mod Analytics
mod Tests
