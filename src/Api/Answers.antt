-- ===== src/Api/Answers.antt =====
-- api/src/routes.rs: what a request is answered by, without a cache and without failures.
use mathlib.Core.Option
use block_ex.Prelude.{Option, none, some, [], String, Bytes, if◌then◌else◌}
use block_ex.Prelude.Int.{pos, negsuc}
use block_ex.Db.{Db}
use block_ex.Api.{Env, Response, json_ok, json_err, is_hex_64}
use block_ex.Api.Models.{Body, TxView}
use block_ex.Api.Queries.{
  max_height, blocks_page, inputs_of, outputs_of, tx_by_hash, latest_mempool, ring_rows,
  spent_key_image,
}
use block_ex.Api.Routes.{Page, page_limit, block_row_of, on_decoded, ring_sets}
use block_ex.Api.Router.{Request}
use block_ex.Api.Keys.{Key, page, named, block, tx, rings, mempool, key_image}

-- The option of an option that a statement with an optional row gives.
abbrev pub flatten {ℓ} : {A : Type ℓ} → Option (Option A) → Option A
flatten none = none
flatten (some o) = o

module _ (env : Env) where
  abbrev pub details : Db → Bytes → TxView → Body
  details d h v =
      Body.tx (record { tx = v; inputs = inputs_of env h d; outputs = outputs_of env h d })

  -- The data that a key stands for, where there are any.
  unfoldable pub data_of : Key → Db → Option Body
  data_of (page start_height limit) d = some (Body.blocks (blocks_page env start_height limit d))
  data_of (named block id) d = Option.map Body.block (flatten (block_row_of env id d))
  data_of (named tx hash) d = elim (env.decode hash) [
    | none ↦ none
    | some h ↦ Option.map (details d h) (tx_by_hash env h d)
  ]
  data_of (named rings hash) d =
      Option.map (λ rows. Body.rings (ring_sets rows)) (on_decoded env hash (ring_rows env) d)
  data_of (named mempool s) d = some (Body.mempool (latest_mempool env d))
  data_of (named key_image hex) d =
      Option.map Body.key_image (flatten (on_decoded env hex (spent_key_image env) d))

  abbrev pub found_or_404 : Option Body → Response
  found_or_404 (some b) = json_ok env b
  found_or_404 none = json_err env 404 "not found"

  abbrev pub answer_of : Key → Db → Response
  answer_of k d = found_or_404 (data_of k d)

  -- The page that `list_blocks` shows, or none, where it shows an empty list.
  unfoldable pub page_of : Page → Db → Option Key
  page_of p d = elim p.start [
    | some (pos s) ↦ some (page (pos s) (page_limit p.limit))
    | some (negsuc s) ↦ none
    | none ↦ Option.map (λ h. page h (page_limit p.limit)) (max_height d.blocks)
  ]

  abbrev pub listed : Option Key → Db → Response
  listed none d = json_ok env (Body.blocks [])
  listed (some k) d = answer_of k d

  abbrev pub if_hash : String → String → Response → Response
  if_hash hash refusal r = if is_hex_64 hash then r else json_err env 400 refusal

  -- What a request other than a search is answered by, without a cache and failures.
  unfoldable pub answer : Request → Db → Response
  unfolding page_of
  answer Request.health d = json_ok env Body.healthy
  answer (Request.blocks p) d = listed (page_of p d) d
  answer (Request.block id) d = answer_of (named block id) d
  answer (Request.tx hash) d = if_hash hash "invalid hash" (answer_of (named tx hash) d)
  answer (Request.rings hash) d = if_hash hash "invalid hash" (answer_of (named rings hash) d)
  answer Request.mempool d = answer_of (named mempool "") d
  answer (Request.key_image hex) d =
      if_hash hex "invalid key image" (answer_of (named key_image hex) d)
  answer (Request.query q) d = json_err env 404 "no match"
