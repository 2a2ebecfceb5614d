-- ===== src/Tests/Sample.antt =====
-- A database of two blocks, a daemon that agrees with it on the first of them, and a spelling of
-- bytes as texts.
use Prim.Native.String.{[] as nil, ◌∷◌ as ◌∷ˢ◌}
use Prim.Native.Char.{char, code}
use mathlib.Core.Option
use block_ex.Prelude.{
  ℕ, zero, suc, ◌+◌, ◌==◌, ◌≡◌, refl, ap, Bool, true, false, Option, none, some, [], ◌∷◌, String,
  Bytes, if◌then◌else◌,
}
use block_ex.Prelude.Int.{pos}
use block_ex.External.{Hex, Json}
use block_ex.Rpc.{MoneroRpc, BlockHeader}
use block_ex.Db.{Db, BlockRow, TxRow}
use block_ex.Persist.Prepare.{Decoders}
use block_ex.World.{Env, World}
use block_ex.Pipeline.{SchedMsg, BlockMsg, TxMsg}

-- A byte is written as that many letters `a` and a `b`.
abbrev pub spell : ℕ → String → String
spell zero s = char 98 tt ∷ˢ s
spell (suc n) s = char 97 tt ∷ˢ spell n s

abbrev pub encode : Bytes → String
encode [] = nil
encode (b ∷ bs) = spell b (encode bs)

abbrev bump : Option Bytes → Option Bytes
bump none = none
bump (some []) = none
bump (some (b ∷ bs)) = some (suc b ∷ bs)

abbrev read : Bool → Option Bytes → Option Bytes
read true bs = bump bs
read false bs = Option.map (λ bs. 0 ∷ bs) bs

abbrev pub decode : String → Option Bytes
decode nil = some []
decode (c ∷ˢ s) = read (code c == 97) (decode s)

pub decode-spell :
    (n : ℕ) (s : String) (bs : Bytes) → decode s ≡ some bs → decode (spell n s) ≡ some (n ∷ bs)
decode-spell zero s bs h = ap (Option.map (λ bs. 0 ∷ bs)) h
decode-spell (suc n) s bs h = ap bump (decode-spell n s bs h)

pub decode-encode : (b : Bytes) → decode (encode b) ≡ some b
decode-encode [] = refl
decode-encode (b ∷ bs) = decode-spell b (encode bs) bs (decode-encode bs)

abbrev pub codec : Hex
codec = record { decode = decode; encode = encode }

abbrev pub zeros : ℕ → Bytes
zeros zero = []
zeros (suc n) = 0 ∷ zeros n

-- The hash of the first block, as a text.
abbrev pub first_hash : String
first_hash = "bbbbbbbbbbbbbbbbbbbbbbbbbbbbbbbb"

-- The daemon's block of a height. Above the first they differ from those that are stored.
abbrev pub header_at : ℕ → BlockHeader
header_at h = record {
  hash = if h == 1 then first_hash else "aaab";
  height = h;
  timestamp = 100 + h;
  prev_hash = if h == 2 then first_hash else "aaab";
  major_version = 16;
  minor_version = 16;
  nonce = 7;
  reward = 600;
  size = 1000;
}

abbrev pub daemon : MoneroRpc
daemon = record {
  get_block_header_by_height = λ n h. some (record { block_header = header_at h; status = "OK" });
  get_block_headers_range = λ n start end. some (header_at start ∷ header_at (start + 1) ∷ []);
  get_block = λ n hash fill. some (record {
    block_header = header_at 1;
    json = some "{}";
    blob = none;
    miner_tx_hash = some "b";
    status = "OK";
  });
  get_transactions =
      λ n hashes. some (record { txs_as_json = hashes; missed_tx = []; status = "OK" });
  get_block_count = λ n. some (record { count = 10; status = "OK" });
  get_transaction_pool_hashes = λ n. some [];
  probe_caps = λ n. record { headers_range = true; blocks_by_height_bin = false };
}

abbrev pub env : Env
env = record { rpc = daemon; hex = codec; decode = decode; encode = encode; faults = λ n. false }

-- Values of JSON that are all alike: an array of one text, and a number.
abbrev pub json : Json
json = record {
  Value = Unit {0};
  from_str = λ s. some tt;
  to_string = λ v. "{}";
  get = λ v name. some tt;
  as_array = λ v. some (tt ∷ []);
  as_str = λ v. some "ab";
  as_u64 = λ v. some 2;
  as_i64 = λ v. some (pos 2);
  is_null = λ v. false;
}

abbrev pub decoders : Decoders json
decoders = record {
  parse_tx_json = λ text. some (record {
    version = 2;
    vin = tt ∷ [];
    vout = tt ∷ tt ∷ [];
    extra = "";
    rct_signatures = tt;
    rctsig_prunable = tt;
    unlock_time = 0;
  });
  parse_u64 = λ text. some 2;
}

abbrev pub block_at : ℕ → Bytes → Bytes → BlockRow
block_at h hash prev_hash = record {
  height = pos h;
  hash = hash;
  prev_hash = prev_hash;
  block_timestamp = pos (100 + h);
  size_bytes = 1000;
  major_version = 16;
  minor_version = 16;
  nonce = pos 7;
  tx_count = 1;
  reward_nanos = pos 600;
  confirmations = pos 0;
  is_final = false;
  analytics_pending = true;
}

abbrev pub tx_at : ℕ → Bytes → TxRow
tx_at h hash = record {
  tx_hash = hash;
  block_height = some (pos h);
  block_timestamp = some (pos (100 + h));
  in_mempool = false;
  fee_nanos = some (pos 30);
  size_bytes = 15;
  version = 2;
  unlock_time = pos 0;
  extra = "";
  rct_type = pos 6;
  proof_type = none;
  bp_plus = true;
  num_inputs = 1;
  num_outputs = 2;
}

abbrev pub stored : Db
stored = record {
  blocks = block_at 1 (zeros 32) (0 ∷ []) ∷ block_at 2 (2 ∷ []) (zeros 32) ∷ [];
  txs = tx_at 1 (5 ∷ []) ∷ tx_at 2 (6 ∷ []) ∷ [];
  tx_inputs =
      record {
        tx_hash = 5 ∷ [];
        idx = pos 0;
        key_image = 9 ∷ [];
        ring_size = pos 2;
        pseudo_out = none;
      }
      ∷ [];
  outputs = [];
  rings =
      record {
        tx_hash = 5 ∷ [];
        input_idx = pos 0;
        ring_index = pos 1;
        referenced_output_id = pos 1;
      }
      ∷ record {
        tx_hash = 5 ∷ [];
        input_idx = pos 0;
        ring_index = pos 0;
        referenced_output_id = pos 2;
      }
      ∷ [];
  mempool_txs =
      record { tx_hash = 8 ∷ []; first_seen = 1; last_seen = 1; fee_rate = none; relayed_by = none }
      ∷ [];
  chain_tips = record { height = pos 2; hash = 2 ∷ []; prev_hash = zeros 32 } ∷ [];
  soft_facts = [];
  ingestor_checkpoint = some (record { last_height = pos 2; finalized_height = pos 0 });
}

abbrev pub world : World
world = record { database = stored; statements = 0; calls = 0; now = 200 }

abbrev pub job : SchedMsg
job = record { height = pos 2; tip_height = pos 9; finalized_height = pos 0 }

abbrev pub block_job : BlockMsg
block_job = record {
  height = pos 3;
  hash = "aaab";
  tx_hashes = "ab" ∷ "aab" ∷ [];
  ts = pos 103;
  tip_height = pos 9;
  finalized_height = pos 1;
  header = header_at 3;
  miner_tx_json = none;
  miner_tx_hash = none;
}

abbrev pub tx_job : TxMsg
tx_job = record {
  height = pos 3;
  block_hash = "aaab";
  tx_jsons = "{}" ∷ [];
  ts = pos 103;
  tip_height = pos 9;
  finalized_height = pos 1;
  header = header_at 3;
  miner_tx_json = none;
  miner_tx_hash = none;
  ordered_tx_hashes = "aaaab" ∷ [];
}
