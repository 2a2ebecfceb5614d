-- ===== src/Api/Routes.antt =====
-- api/src/routes.rs: the handlers of the API, and their table of routes.
use Prim.Native.String.{len, ◌++◌ as ◌++ˢ◌}
use mathlib.Core.Option
use block_ex.Prelude.{
  ◌==◌, ◌&&◌, Bool, true, false, not, Option, none, some, List, [], ◌∷◌, ◌++◌, map, String, Bytes,
  bytes_eq, contains, if◌then◌else◌,
}
use block_ex.Prelude.Int.{ℤ, pos, negsuc}
use block_ex.Prelude.Order.{leb_ℤ, eq_ℤ, min_ℤ, max_ℤ}
use block_ex.Prelude.Sorting.{sort_by}
use block_ex.Db.{Db}
use block_ex.Api.{
  Env, Handler, json_ok, json_err, cached_json, unless_cached, statement, db_error, reply,
  all_hexdigit, is_hex_64,
}
use block_ex.Api.Models.{
  Body, BlockView, TxView, RingView, RingMemberView, RingSetView, Found, text, number,
}
use block_ex.Api.Queries.{
  max_height, blocks_page, block_by_hash, block_by_height, tx_by_hash, inputs_of, outputs_of,
  latest_mempool, ring_rows, spent_key_image, opt_is,
}

pub record Page : Type 0 where
  pub start : Option ℤ
  pub limit : Option ℤ

-- `.unwrap_or(20).clamp(1, 200)`
unfoldable pub page_limit : Option ℤ → ℤ
page_limit none = pos 20
page_limit (some limit) = min_ℤ (max_ℤ limit (pos 1)) (pos 200)

-- `grouped.entry(row.input_idx).or_default().push(…)`, where the map is its entries by key.
unfoldable pub push_member :
    ℤ → RingMemberView → List (ℤ × List RingMemberView) → List (ℤ × List RingMemberView)
push_member k m [] = (k, m ∷ []) ∷ []
push_member k m ((j, ms) ∷ rest) =
    let pushed = push_member k m rest in
    if eq_ℤ j k
    then (j, ms ++ m ∷ []) ∷ rest
    else if leb_ℤ j k
    then (j, ms) ∷ pushed
    else (k, m ∷ []) ∷ (j, ms) ∷ rest

abbrev pub member : RingView → RingMemberView
member row = record { ring_index = row.ring_index; global_index = row.global_index }

-- The loop over the rows, from the map that it has.
unfoldable pub group_rows :
    List (ℤ × List RingMemberView) → List RingView → List (ℤ × List RingMemberView)
unfolding push_member
group_rows grouped [] = grouped
group_rows grouped (row ∷ rows) = group_rows (push_member row.input_idx (member row) grouped) rows

unfoldable pub ring_sets : List RingView → List RingSetView
unfolding group_rows
ring_sets rows =
    map
      (λ e. record {
        input_idx = e.0;
        members = sort_by (λ a b. leb_ℤ a.ring_index b.ring_index) e.1;
      })
      (group_rows [] rows)

module _ (env : Env) where
  unfoldable pub blocks_key : ℤ → ℤ → String
  blocks_key start_height limit = "blocks:" ++ˢ (env.show start_height ++ˢ (":" ++ˢ env.show limit))

  unfoldable pub block_key : String → String
  block_key id = "block:" ++ˢ id

  unfoldable pub tx_key : String → String
  tx_key hash = "tx:" ++ˢ hash

  unfoldable pub rings_key : String → String
  rings_key hash = "rings:" ++ˢ hash

  unfoldable pub key_image_key : String → String
  key_image_key hex = "ki:" ++ˢ hex

  -- `list_blocks` from its `cache_key` on.
  unfoldable pub list_from : ℤ → ℤ → Handler env
  list_from limit start_height = unless_cached env (blocks_key start_height limit) (
      statement env (λ d. some (blocks_page env start_height limit d))
        (λ v. cached_json env (blocks_key start_height limit) (Body.blocks v) 3) (db_error env))

  unfoldable pub list_below : ℤ → Option ℤ → Handler env
  list_below limit (some h) = list_from limit h
  list_below limit none = reply env (json_ok env (Body.blocks []))

  unfoldable pub list_at : ℤ → Option ℤ → Handler env
  unfolding list_from list_below
  list_at limit (some (pos s)) = list_from limit (pos s)
  list_at limit (some (negsuc s)) = reply env (json_ok env (Body.blocks []))
  list_at limit none =
      statement env (λ d. some (max_height d.blocks)) (list_below limit) (db_error env)

  unfoldable pub list_blocks : Page → Handler env
  unfolding list_at
  list_blocks p = list_at (page_limit p.limit) p.start

  -- `id.parse().unwrap_or(-1)`
  abbrev or_minus_one : Option ℤ → ℤ
  or_minus_one none = negsuc 0
  or_minus_one (some h) = h

  -- `Ok(Some(v)) => …, Ok(None) => json_err(404, "not found")`
  abbrev pub or_not_found {ℓ} : {A : Type ℓ} → (A → Handler env) → Option A → Handler env
  or_not_found rest (some v) = rest v
  or_not_found rest none = reply env (json_err env 404 "not found")

  -- The row of `get_block`. A text that does not decode fails the statement.
  unfoldable pub block_row_of : String → Db → Option (Option BlockView)
  block_row_of id d =
      if (len id == 64) && all_hexdigit id
      then Option.map (λ h. block_by_hash env h d) (env.decode id)
      else some (block_by_height env (or_minus_one (env.parse_i64 id)) d)

  unfoldable pub get_block : String → Handler env
  unfolding block_row_of
  get_block id = unless_cached env (block_key id) (
      statement env (block_row_of id)
        (or_not_found (λ v. cached_json env (block_key id) (Body.block v) 30)) (db_error env))

  -- A statement with `decode($1,'hex')`.
  abbrev pub on_decoded {ℓ} : {A : Type ℓ} → String → (Bytes → Db → A) → Db → Option A
  on_decoded hash f d = Option.map (λ h. f h d) (env.decode hash)

  unfoldable pub tx_details : String → TxView → Handler env
  tx_details hash tx =
      statement env (on_decoded hash (inputs_of env))
        (λ inputs.
          statement env (on_decoded hash (outputs_of env))
            (λ outputs.
              cached_json env (tx_key hash)
                (Body.tx (record { tx = tx; inputs = inputs; outputs = outputs })) 60)
            (db_error env))
        (db_error env)

  unfoldable pub get_tx : String → Handler env
  unfolding tx_details
  get_tx hash =
      if not (is_hex_64 hash)
      then reply env (json_err env 400 "invalid hash")
      else unless_cached env (tx_key hash) (
          statement env (on_decoded hash (tx_by_hash env)) (or_not_found (tx_details hash))
            (db_error env))

  unfoldable pub get_mempool : Handler env
  get_mempool = unless_cached env "mempool:latest" (
      statement env (λ d. some (latest_mempool env d))
        (λ v. cached_json env "mempool:latest" (Body.mempool v) 2) (db_error env))

  unfoldable pub get_tx_rings : String → Handler env
  get_tx_rings hash =
      if not (is_hex_64 hash)
      then reply env (json_err env 400 "invalid hash")
      else unless_cached env (rings_key hash) (
          statement env (on_decoded hash (ring_rows env))
            (λ rows. cached_json env (rings_key hash) (Body.rings (ring_sets rows)) 60)
            (db_error env))

  unfoldable pub get_key_image : String → Handler env
  get_key_image hex =
      if not (is_hex_64 hex)
      then reply env (json_err env 400 "invalid key image")
      else unless_cached env (key_image_key hex) (
          statement env (on_decoded hex (spent_key_image env))
            (or_not_found (λ v. cached_json env (key_image_key hex) (Body.key_image v) 120))
            (db_error env))

  -- `SELECT 1 … LIMIT 1`, where a failure counts as no row.
  unfoldable pub if_row : (Db → Option Bool) → Handler env → Handler env → Handler env
  if_row test hit miss =
      statement env test (λ there. elim there [ true ↦ hit | false ↦ miss ]) (λ e. miss)

  unfoldable pub found : String → Found → Handler env
  found kind value = reply env (json_ok env (Body.search (record { kind = kind; value = value })))

  abbrev pub no_match : Handler env
  no_match = reply env (json_err env 404 "no match")

  -- The second half of `search`.
  unfoldable pub search_number : Option ℤ → Handler env
  unfolding found if_row
  search_number none = no_match
  search_number (some h) =
      if_row (λ d. some (contains (λ b. eq_ℤ b.height h) d.blocks)) (found "height" (number h))
        (if_row (λ d. some (contains (λ o. opt_is o.global_index h) d.outputs))
          (found "global_index" (number h)) no_match)

  unfoldable pub search : String → Handler env
  unfolding search_number
  search q =
      let s = env.trim q in
      if (len s == 64) && all_hexdigit s
      then if_row (on_decoded s (λ h d. contains (λ t. bytes_eq t.tx_hash h) d.txs))
          (found "tx" (text s))
          (if_row (on_decoded s (λ h d. contains (λ b. bytes_eq b.hash h) d.blocks))
            (found "block" (text s))
            (if_row (on_decoded s (λ h d. contains (λ i. bytes_eq i.key_image h) d.tx_inputs))
              (found "key_image" (text s)) (search_number (env.parse_i64 s))))
      else search_number (env.parse_i64 s)

  unfoldable pub healthz : Handler env
  healthz = reply env (json_ok env Body.healthy)
