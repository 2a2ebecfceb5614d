-- ===== src/Api/Router.antt =====
-- api/src/routes.rs, `v1_router`, with the route of main.rs.
use block_ex.Prelude.{String}
use block_ex.Api.{Env, Handler}
use block_ex.Api.Routes.{
  Page, healthz, list_blocks, get_block, get_tx, get_tx_rings, get_mempool, get_key_image, search,
}

-- A request for one of the routes, with what is read from its path and its query.
pub data Request : Type 0 where
  health : Request
  blocks : Page → Request
  block : String → Request
  tx : String → Request
  rings : String → Request
  mempool : Request
  key_image : String → Request
  query : String → Request

unfoldable pub serve : (env : Env) → Request → Handler env
serve env health = healthz env
serve env (blocks p) = list_blocks env p
serve env (block id) = get_block env id
serve env (tx hash) = get_tx env hash
serve env (rings hash) = get_tx_rings env hash
serve env mempool = get_mempool env
serve env (key_image hex) = get_key_image env hex
serve env (query q) = search env q
