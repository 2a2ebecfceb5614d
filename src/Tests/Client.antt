-- ===== src/Tests/Client.antt =====
-- The theorems on the HTTP client at requests: a daemon that answers every one of them.
use Prim.Native.String.{[] as nil}
use block_ex.Prelude.{
  Bytes, false, sym, ap, ◌∙◌, ℕ, ◌≡◌, refl, Bool, Option, none, some, List, [], ◌∷◌, String,
}
use block_ex.Result.{ok}
use block_ex.External.{Json}
use block_ex.Rpc.{GetBlockHeaderByHeightResult}
use block_ex.Header.{
  HeaderFetcher, new, fetch, take_buffered, skip_below, pop_at, from_buffer, fill_batch, after_fill,
  from_batch, fetch_single, fall_back,
}
use block_ex.Client
use block_ex.Client.Wire.{Http, Request, Params, Answer, Schemas, call, range, height, untagged}
use block_ex.Client.{
  Rpc, ClientState, raw_call, send_counted, send, counted, if_success, result_of,
  get_block_header_by_height, get_block_headers_range, get_block, get_block_count, get_transactions,
  get_transaction_pool_hashes, as_monero_rpc,
}
use block_ex.Client.Errors.{Counts, calls-Counts}
use block_ex.Client.Replies.{IsReply, get_block_headers_range-IsReply, fetch-height_client}
use block_ex.Tests.Sample.{env, world, json, header_at, spell, decode, decode-spell}

abbrev http : Http
http = record { send = λ n req. some (record { status = 200; body = "{}" }) }

abbrev schemas : Schemas json
schemas = record {
  rpc_error = λ v. none;
  header_by_height = λ v. some (record { block_header = header_at 4; status = "OK" });
  headers_range = λ v. some (record { status = "OK"; headers = header_at 4 ∷ [] });
  block = λ v. none;
  block_count = λ v. some (record { count = 10; status = "OK" });
  transactions = λ s. some (record { txs_as_json = []; missed_tx = []; status = "OK" });
  pool_hashes = λ s. some (record { status = "OK"; tx_hashes = [] });
}

abbrev rpc : Rpc
rpc = Client.new "http://127.0.0.1:38081/json_rpc"

calls-Counts_example :
    ((h : ℕ)
      → Counts "get_block_header_by_height" (get_block_header_by_height http json schemas rpc h))
    × ((start end : ℕ)
        → Counts "get_block_headers_range"
            (get_block_headers_range http json schemas rpc start end))
    × ((hash : String) (fill_pow : Bool)
        → Counts "get_block" (get_block http json schemas rpc hash fill_pow))
    × Counts "get_block_count" (get_block_count http json schemas rpc)
    × ((hashes : List String)
        → Counts "get_transactions" (get_transactions http json schemas rpc hashes))
    × Counts "get_transaction_pool_hashes" (get_transaction_pool_hashes http json schemas rpc)
calls-Counts_example = calls-Counts http json schemas rpc

abbrev idle : ClientState
idle = record { requests = 0; rpc_errors = [] }

ranges : (get_block_headers_range http json schemas rpc 4 4 idle).0 ≡ some (header_at 4 ∷ [])
unfolding get_block_headers_range raw_call send_counted send counted if_success untagged result_of
ranges = refl

get_block_headers_range-IsReply_example :
    IsReply http json schemas rpc schemas.headers_range "get_block_headers_range"
      (range 4 4)
      0
      (record { status = "OK"; headers = header_at 4 ∷ [] })
get_block_headers_range-IsReply_example =
    get_block_headers_range-IsReply http json schemas rpc 4 4 idle ranges

-- A daemon that writes the height that it is asked for, and JSON that is its text.
abbrev spelled : Params → String
spelled (height k) = spell k nil
spelled _ = ""

abbrev reply_to : Request → Answer
reply_to (call url method params) = record { status = 200; body = spelled params }
reply_to _ = record { status = 200; body = "" }

abbrev teller : Http
teller = record { send = λ n req. some (reply_to req) }

abbrev texts : Json
texts = record {
  Value = String;
  from_str = λ s. some s;
  to_string = λ v. v;
  get = λ v name. some v;
  as_array = λ v. none;
  as_str = λ v. some v;
  as_u64 = λ v. none;
  as_i64 = λ v. none;
  is_null = λ v. false;
}

abbrev told : Option Bytes → Option GetBlockHeaderByHeightResult
told (some (k ∷ _)) = some (record { block_header = header_at k; status = "OK" })
told _ = none

abbrev readers : Schemas texts
readers = record {
  rpc_error = λ v. none;
  header_by_height = λ v. told (decode v);
  headers_range = λ v. none;
  block = λ v. none;
  block_count = λ v. none;
  transactions = λ s. none;
  pool_hashes = λ s. none;
}

honest :
    (n k : ℕ) (res : GetBlockHeaderByHeightResult)
    → IsReply teller texts readers rpc readers.header_by_height "get_block_header_by_height"
        (height k)
        n
        res
    → res.block_header.height ≡ k
honest n k res r =
    let read : r.result ≡ spell k nil = cc (r.has_result, r.parsed, r.sent) in
    let whole : told (decode (spell k nil)) ≡ some res = rw read at r.decoded in
    cc (ap told (sym (decode-spell k nil [] refl)) ∙ whole)

abbrev fetcher : HeaderFetcher
fetcher = new (record { headers_range = false; blocks_by_height_bin = false }) 1

fetches :
    (fetch (record env { rpc = as_monero_rpc teller texts readers rpc }) 3 fetcher world).0
    ≡ ok (header_at 3)
unfolding fetch take_buffered skip_below pop_at from_buffer fill_batch after_fill from_batch
    fetch_single fall_back as_monero_rpc get_block_header_by_height raw_call send_counted send
    counted if_success untagged result_of
fetches = refl

fetch-height_client_example : (header_at 3).height ≡ 3
fetch-height_client_example =
    fetch-height_client teller texts readers rpc env fetcher 3 world honest fetches
