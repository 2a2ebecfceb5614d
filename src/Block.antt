-- ===== src/Block.antt =====
-- ingestor/src/work_block.rs: the block of a height, with the check that it extends the stored one.
pub mod Chain
pub mod Gap
pub mod Job
pub mod Healed
pub mod Retry
use mathlib.Core.Option
use mathlib.Core.List.{filter_map}
use Prim.Native.String.{len}
use block_ex.Prelude.{
  ℕ, zero, suc, ◌+◌, ◌-◌, ◌^◌, ◌==◌, Bool, true, false, not, Option, none, some, List, [], ◌∷◌,
  String, Bytes, bytes_eq, length, replicate, keep, if◌then◌else◌,
}
use block_ex.Prelude.Int.{ℤ, pos, ◌-ℤ◌}
use block_ex.Prelude.Words.{as_i64, i64_mod, i64_try_from, u64_try_from}
use block_ex.Result.{
  Result, ok, err, running, ok_or, overflow, json_decode, reorg_detected, block_json_missing,
}
use block_ex.External.{Json}
use block_ex.Rpc.{BlockHeader}
use block_ex.Pipeline.{SchedMsg, BlockMsg}
use block_ex.World.{Env, World, M, continue, call, pure, lift, raise, ◌>>=◌, ◌>>◌}
use block_ex.Store.{block_hash_at}
use block_ex.Reorg.{heal_reorg}
use block_ex.Header.{HeaderFetcher, Fetched, fetch}

-- The closure of the `filter_map` of `extract_tx_hashes`, over the elements of the array.
unfoldable pub texts_of : (json : Json) → List (json.Value) → List String
texts_of json [] = []
texts_of json (v ∷ vs) =
    let rest = texts_of json vs in elim (json.as_str v) [ none ↦ rest | some s ↦ s ∷ rest ]

unfoldable pub extract_tx_hashes : (json : Json) → json.Value → List String
unfolding texts_of
extract_tx_hashes json block = elim (json.get block "tx_hashes") [
  | none ↦ []
  | some v ↦ elim (json.as_array v) [ none ↦ [] | some arr ↦ texts_of json arr ]
]

module _ (env : Env) where
  -- `<[u8; 32]>::from_hex(&prev_hex).unwrap_or([0u8; 32])`
  unfoldable pub prev_bytes : String → Bytes
  prev_bytes prev_hex = elim (env.hex.decode prev_hex) [
    | none ↦ replicate 32 0
    | some b ↦ if length b == 32 then b else replicate 32 0
  ]

  -- `i64::try_from(cfg.finality_window).unwrap_or(i64::MAX)`
  unfoldable pub window_i64 : ℕ → ℤ
  window_i64 finality_window = elim (i64_try_from finality_window) [
    | some n ↦ n
    | none ↦ pos (2 ^ 63 - 1)
  ]

  -- The stored hash of the block below is not the one that the header names: heal, and start anew.
  unfoldable pub reorg : ℕ → BlockHeader → M (Unit {0})
  unfolding window_i64
  reorg finality_window header = do
    heal_reorg env (as_i64 header.height) (window_i64 finality_window)
    raise reorg_detected

  unfoldable pub check_stored : ℕ → BlockHeader → Option Bytes → M (Unit {0})
  check_stored finality_window header none = pure tt
  check_stored finality_window header (some expected_prev) =
      elim (bytes_eq expected_prev (prev_bytes header.prev_hash)) [
        | true ↦ pure tt
        | false ↦ reorg finality_window header
      ]

  unfoldable pub check_prev : ℕ → BlockHeader → M (Unit {0})
  check_prev finality_window header = do
    stored ← block_hash_at env (as_i64 header.height -ℤ pos 1)
    check_stored finality_window header stored

  unfoldable pub fetch_block_json : BlockHeader → M (String × Option String)
  fetch_block_json header = do
    blk ← call (λ n. env.rpc.get_block n header.hash false)
    json ← lift (ok_or (block_json_missing header.height) blk.json)
    pure (json, blk.miner_tx_hash)

module _ (env : Env) (json : Json) where
  -- What `process_height` does with its header.
  unfoldable pub process_header : ℕ → SchedMsg → BlockHeader → M BlockMsg
  unfolding extract_tx_hashes fetch_block_json
  process_header finality_window msg header = do
    check_prev env finality_window header
    fetched ← fetch_block_json env header
    block_value ← lift (ok_or json_decode (json.from_str fetched.0))
    ts ← lift (ok_or overflow (i64_try_from header.timestamp))
    pure (record {
      height = msg.height;
      hash = header.hash;
      tx_hashes = keep (λ h. not (len h == 0)) (extract_tx_hashes json block_value);
      ts = ts;
      tip_height = msg.tip_height;
      finalized_height = msg.finalized_height;
      header = header;
      miner_tx_json = Option.map (λ v. json.to_string v) (json.get block_value "miner_tx");
      miner_tx_hash = fetched.1;
    })

  -- The fetcher keeps what it has fetched also where the rest fails.
  abbrev pub with_header : ℕ → SchedMsg → Fetched → Result BlockMsg × HeaderFetcher × World
  with_header finality_window msg (r, headers, w) =
      let (r', w') = continue r (process_header finality_window msg) w in (r', headers, w')

  unfoldable pub process_height :
      ℕ → HeaderFetcher → SchedMsg → World → Result BlockMsg × HeaderFetcher × World
  unfolding process_header
  process_height finality_window headers msg w = elim (u64_try_from msg.height) [
    | none ↦ (err overflow, headers, w)
    | some height ↦ with_header finality_window msg (fetch env height headers w)
  ]

  abbrev pub retry :
      (HeaderFetcher → World → Result BlockMsg × HeaderFetcher × World)
      → Result BlockMsg × HeaderFetcher × World
      → Result BlockMsg × HeaderFetcher × World
  retry again (err reorg_detected, headers, w) = again headers w
  retry again (r, headers, w) = (r, headers, w)

  -- The inner loop of `run`: a height that found a reorganisation is processed again.
  unfoldable pub process_job :
      ℕ → ℕ → SchedMsg → HeaderFetcher → World → Result BlockMsg × HeaderFetcher × World
  process_job zero finality_window job headers w = (running, headers, w)
  process_job (suc fuel) finality_window job headers w =
      retry (process_job fuel finality_window job) (process_height finality_window headers job w)
