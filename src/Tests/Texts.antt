-- ===== src/Tests/Texts.antt =====
-- The theorems on fetched transactions and on the `extra` field at a run.
use block_ex.Prelude.{
  ℕ, ◌≤◌, ◌≡◌, ◌≢◌, refl, ap, sym, ◌∙◌, none, some, List, [], ◌∷◌, ◌++◌, map, String, Bytes, length,
  arith, true,
}
use mathlib.Core.List.{map-id, zip}
use block_ex.Result.{ok, running}
use block_ex.Rpc.{GetTransactionsResult}
use block_ex.Pipeline.{TxMsg}
use block_ex.World.{Env, World}
use block_ex.World.Rules.{HasEnded}
use block_ex.Fetch.{fetch_txs_adaptive, fetch_loop, take_answer}
use block_ex.Fetch.Order.{AnswersInOrder, fetch_txs_adaptive-eq-map}
use block_ex.Fetch.Progress.{CatchesUp, fetch_txs_adaptive_total, fetch_txs_adaptive-eq-running}
use block_ex.Txs.{
  start_chunk, fetch_transactions, pair_up, process_block, IsFilledIn, IsFetch, process_block-ok,
}
use block_ex.Codec.Extra.{TxExtraTag, parse_tx_extra}
use block_ex.Codec.Extra.Layout.{
  Entry, key, extra_nonce, padding, other, layouts, readings, short_content, parse_tx_extra-layouts,
}
use block_ex.Codec.Extra.Extent.{extents, parse_tx_extra_total}
use block_ex.Prelude.Int.{pos}
use block_ex.Persist.Prepare.{PreparedTx}
use block_ex.Tests.Sample.{env, world, codec, encode, decode-encode, zeros, daemon, block_job}

in_order : AnswersInOrder env (λ h. h)
in_order n hashes res e m = ap (λ l. l) (sym (cc e) ∙ sym (map-id hashes))

abbrev two : List String
two = "ab" ∷ "aab" ∷ []

abbrev fetched : World
fetched = (fetch_txs_adaptive env 3 two 10 world).1

fetches : fetch_txs_adaptive env 3 two 10 world ≡ (ok two, fetched)
unfolding fetch_txs_adaptive fetch_loop take_answer
fetches = refl

fetch_txs_adaptive-eq-map_example : two ≡ map (λ h. h) two
fetch_txs_adaptive-eq-map_example =
    fetch_txs_adaptive-eq-map env (λ h. h) in_order 3 two 10 world fetches

catches_up : CatchesUp env 0
catches_up n hashes res p e = cc e

fetch_txs_adaptive_total_example : HasEnded (fetch_txs_adaptive env 3 two 10 world).0
fetch_txs_adaptive_total_example =
    fetch_txs_adaptive_total env 0 catches_up 3 two 10 world (omega arith)

-- A daemon that has dropped every transaction.
abbrev forgetful : Env
forgetful = record env {
  rpc = record daemon {
    get_transactions =
        λ n hashes. some (record { txs_as_json = []; missed_tx = "ab" ∷ []; status = "OK" });
  };
}

misses :
    (n : ℕ) (hashes : List String)
    → hashes ≢ []
    → (res : GetTransactionsResult) × (forgetful.rpc.get_transactions n hashes ≡ some res)
      × (res.missed_tx ≢ [])
misses n hashes h =
    (record { txs_as_json = []; missed_tx = "ab" ∷ []; status = "OK" }, refl, λ e. absurd (cc e))

fetch_txs_adaptive-eq-running_example : (fetch_txs_adaptive forgetful 40 two 10 world).0 ≡ running
fetch_txs_adaptive-eq-running_example =
    fetch_txs_adaptive-eq-running forgetful misses 40 "ab" ("aab" ∷ []) 10 world

abbrev passed_on : TxMsg
passed_on = record {
  height = block_job.height;
  block_hash = block_job.hash;
  tx_jsons = two;
  ts = block_job.ts;
  tip_height = block_job.tip_height;
  finalized_height = block_job.finalized_height;
  header = block_job.header;
  miner_tx_json = none;
  miner_tx_hash = none;
  ordered_tx_hashes = two;
}

abbrev processed : World
processed = (process_block env 3 2 block_job world).1

processes : process_block env 3 2 block_job world ≡ (ok passed_on, processed)
unfolding process_block fetch_transactions pair_up fetch_txs_adaptive fetch_loop take_answer
    start_chunk zip
processes = refl

process_block-ok_example : IsFilledIn block_job passed_on × IsFetch env 3 2 two world two processed
process_block-ok_example = process_block-ok env 3 2 block_job world processes

-- A key, a nonce of two bytes, padding, an unknown tag, and a nonce that is cut off.
abbrev entries : List Entry
entries = key (zeros 32) ∷ extra_nonce (3 ∷ 1 ∷ []) ∷ padding ∷ other 7 (5 ∷ []) ∷ []

abbrev cut : Bytes
cut = 2 ∷ 4 ∷ 1 ∷ []

parse_tx_extra-layouts_example :
    parse_tx_extra codec (encode (layouts entries ++ cut)) ≡ ok (readings codec entries)
parse_tx_extra-layouts_example =
    parse_tx_extra-layouts codec (encode (layouts entries ++ cut)) entries cut
      (
        refl,
        (
          tt,
          (
            tt,
            (
              (
                (λ e. absurd (omega (arith, e))),
                (λ e. absurd (omega (arith, e))),
                (λ e. absurd (omega (arith, e))),
                (λ e. absurd (omega (arith, e))),
              ),
              tt,
            ),
          ),
        ),
      )
      (short_content 2 4 (1 ∷ []) (λ e. absurd (cc e)) (λ e. absurd (cc e)) (omega arith))
      (decode-encode (layouts entries ++ cut))

abbrev three : Bytes
three = 1 ∷ 2 ∷ 0 ∷ []

parse_tx_extra_total_example :
    (tags : List TxExtraTag) × (parse_tx_extra codec "abaabb" ≡ ok tags)
    × (extents tags ≤ length three)
parse_tx_extra_total_example = parse_tx_extra_total codec "abaabb" three refl

abbrev prepared : PreparedTx
prepared = record {
  hash = 1 ∷ [];
  hash_hex = "ab";
  fee = some (pos 2);
  size_bytes = 2;
  version = 2;
  unlock_time = pos 0;
  extra = "";
  rct_type = pos 2;
  proof_type = some "CLSAG";
  bp_plus = true;
  num_inputs = 1;
  num_outputs = 2;
}
