-- ===== src/Tests/Run.antt =====
-- The settings and the messages of the runs of the tasks.
use block_ex.Prelude.{◌≡◌, refl, true, false, none, some, [], ◌∷◌, List}
use block_ex.Prelude.Int.{ℤ, pos}
use block_ex.Prelude.Words.{i64_try_from, i32_try_from}
use mathlib.Core.List.{zip}
use block_ex.Result.{ok}
use block_ex.Rpc.{Capabilities}
use block_ex.Header.{HeaderFetcher}
use block_ex.Pipeline.{SchedMsg, BlockMsg, TxMsg}
use block_ex.Header.{new}
use block_ex.System.{RunArgs, Settings}
use block_ex.Persist.Prepare.{
  PreparedTx, prepare_block, prepare_miner, prepare_all, prepare_tx, hash_text, value_u64,
  number_at, counts, parse_fee, rct_type_of, has_bp_plus, i32_or_zero,
}
use block_ex.Codec.{analyze_tx}
use block_ex.Codec.Extra.{parse_tx_extra}
use block_ex.Header.Ranges.{AnswersHeight}
use block_ex.Tests.Sample.{env, json, decoders, header_at}

pub answers : AnswersHeight env
answers n h res e = cc e

abbrev pub args : RunArgs
args = record {
  database_url = "";
  rpc_url = "";
  finality_window = 5;
  ingest_concurrency = 2;
  rpc_rps = 10;
  bootstrap = false;
  start_height = some 5;
  limit = none;
  zmq_url = "";
}

abbrev pub caps : Capabilities
caps = record { headers_range = true; blocks_by_height_bin = false }

abbrev pub cfg : Settings
cfg = record {
  pipeline = record { sched_buffer = 512; block_workers = 2; tx_workers = 2 };
  concurrency = 2;
  caps = caps;
  header_batch = 200;
  scheduler = record { start_height = some (pos 5); limit = none; finality_window = 5 };
  persister = record { finality_window = 5; do_analytics = true };
}

abbrev pub job : ℤ → SchedMsg
job h = record { height = h; tip_height = pos 9; finalized_height = pos 4 }

abbrev pub ranges : HeaderFetcher
ranges = new caps 200

abbrev pub ranges_after : HeaderFetcher
ranges_after = record ranges { buffered = header_at 7 ∷ [] }

abbrev pub fetched : BlockMsg
fetched = record {
  height = pos 6;
  hash = "aaab";
  tx_hashes = "ab" ∷ [];
  ts = pos 106;
  tip_height = pos 9;
  finalized_height = pos 4;
  header = header_at 6;
  miner_tx_json = some "{}";
  miner_tx_hash = some "b";
}

abbrev pub completed : TxMsg
completed = record {
  height = pos 6;
  block_hash = "aaab";
  tx_jsons = "ab" ∷ [];
  ts = pos 106;
  tip_height = pos 9;
  finalized_height = pos 4;
  header = header_at 6;
  miner_tx_json = some "{}";
  miner_tx_hash = some "b";
  ordered_tx_hashes = "ab" ∷ [];
}

abbrev prepared_tx : PreparedTx
prepared_tx = record {
  hash = 1 ∷ [];
  hash_hex = "ab";
  fee = some (pos 2);
  size_bytes = 2;
  version = 2;
  unlock_time = pos 0;
  extra = "";
  rct_type = pos 2;
  proof_type = some "CLSAG";
  bp_plus = true;
  num_inputs = 1;
  num_outputs = 2;
}

abbrev pub prepared : List PreparedTx
prepared = prepared_tx ∷ prepared_tx ∷ []

pub prepares : prepare_block env.hex json decoders completed true ≡ ok prepared
unfolding prepare_block prepare_miner prepare_all prepare_tx hash_text value_u64 number_at counts
    parse_fee rct_type_of has_bp_plus i32_try_from i64_try_from i32_or_zero zip analyze_tx
    parse_tx_extra
prepares = refl
