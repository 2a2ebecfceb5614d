-- ===== src/Api/Serve.antt =====
-- api/src/routes.rs: the handlers with their cache, against the answers without one.
use block_ex.Prelude.{
  arith, ℕ, ◌≡◌, inl, inr, refl, sym, ◌∙◌, Bool, true, false, not, Option, none, some, List, String,
  Bool-cases, if◌then◌else◌,
}
use block_ex.Prelude.Int.{ℤ, pos, negsuc}
use block_ex.Db.{Db}
use block_ex.Api.{Env, AppState, Handler, Response, json_err, is_hex_64}
use block_ex.Api.Models.{Body, TxView, InputView, OutputView}
use block_ex.Api.Queries.{max_height, tx_by_hash, inputs_of, outputs_of}
use block_ex.Api.Routes.{
  Page, page_limit, list_from, list_at, list_blocks, get_block, tx_details, get_tx, get_tx_rings,
  get_mempool, get_key_image, on_decoded,
}
use block_ex.Api.Router.{Request, serve}
use block_ex.Api.Routes.{healthz}
use block_ex.Api.Keys.{Key, page, named, block, tx, rings, mempool, key_image, key_text, IsDecimal}
use mathlib.Core.Option
use block_ex.Api.Answers.{data_of, answer_of, flatten, if_hash, answer, listed, page_of}
use block_ex.Api.{unless_cached, statement, cached_json, db_error, reply}
use block_ex.Api.Routes.{or_not_found, list_below}
use block_ex.Api.Cached.{
  IsCache, IsCoherent, Serves, reply-Serves, statement-Serves, cached_json-Serves,
  unless_cached-Serves,
}

module _ (env : Env) (is_cache : IsCache env.cache) (decimal : IsDecimal env.show) where
  -- A statement with rows that are there whenever it succeeds.
  rows-Serves {ℓ} :
      {A : Type ℓ} (k : Key) (f : Db → Option A) (body : A → Body) (ttl : ℕ) (s : AppState env)
      → ((d : Db) → data_of env k d ≡ Option.map body (f d))
      → IsCoherent env s.db s.cache
      → Serves env (answer_of env k) s (
          unless_cached env
            (key_text env k)
            (statement env f (λ v. cached_json env (key_text env k) (body v) ttl) (db_error env))
            s)
  rows-Serves k f body ttl s is c = unless_cached-Serves env is_cache decimal k _ s c λ s₁ _ c₁.
      statement-Serves env _ f _ s₁ c₁ λ v s₂ e same c₂.
        cached_json-Serves env is_cache decimal k (body v) ttl s₂ (is s₂.db ∙ rw (same, e) refl) c₂

  -- A statement with one row at most, which is cached if it is there.
  row-Serves {ℓ} :
      {A : Type ℓ} (k : Key) (f : Db → Option (Option A)) (body : A → Body) (ttl : ℕ)
      (s : AppState env)
      → ((d : Db) → data_of env k d ≡ Option.map body (flatten (f d)))
      → IsCoherent env s.db s.cache
      → Serves env (answer_of env k) s (
          unless_cached env
            (key_text env k)
            (statement env f
              (or_not_found env (λ v. cached_json env (key_text env k) (body v) ttl))
              (db_error env))
            s)
  row-Serves k f body ttl s is c = unless_cached-Serves env is_cache decimal k _ s c λ s₁ _ c₁.
      statement-Serves env _ f _ s₁ c₁
        λ row s₂ e same c₂. replied row s₂ (is s₂.db ∙ rw (same, e) refl) c₂
    where
      replied :
          (row : Option _) (s : AppState env)
          → data_of env k s.db ≡ Option.map body row
          → IsCoherent env s.db s.cache
          → Serves env
              (answer_of env k)
              s
              (or_not_found env (λ v. cached_json env (key_text env k) (body v) ttl) row s)
      replied (some v) s e c = cached_json-Serves env is_cache decimal k (body v) ttl s e c
      replied none s e c = reply-Serves env _ s _ (rw e refl) c

  list_from-Serves :
      (limit start : ℤ) (s : AppState env)
      → IsCoherent env s.db s.cache
      → Serves env (answer_of env (page start limit)) s (list_from env limit start s)
  unfolding list_from key_text data_of
  list_from-Serves limit start s = rows-Serves (page start limit) _ Body.blocks 3 s (λ d. refl)

  get_mempool-Serves :
      (s : AppState env)
      → IsCoherent env s.db s.cache
      → Serves env (answer_of env (named mempool "")) s (get_mempool env s)
  unfolding get_mempool key_text data_of
  get_mempool-Serves s = rows-Serves (named mempool "") _ Body.mempool 2 s (λ d. refl)

  get_block-Serves :
      (id : String) (s : AppState env)
      → IsCoherent env s.db s.cache
      → Serves env (answer_of env (named block id)) s (get_block env id s)
  unfolding get_block key_text data_of
  get_block-Serves id s = row-Serves (named block id) _ Body.block 30 s (λ d. refl)

  -- A handler that refuses what is not a hash.
  hash-Serves :
      (a : Db → Response) (refusal hash : String) (h : Handler env) (s : AppState env)
      → IsCoherent env s.db s.cache
      → Serves env a s (h s)
      → Serves env
          (λ d. if_hash env hash refusal (a d))
          s
          ((if not (is_hex_64 hash) then reply env (json_err env 400 refusal) else h) s)
  hash-Serves a refusal hash h s c go = elim (Bool-cases (is_hex_64 hash)) [
    | inl e ↦ rw e (record { reply = go.reply; coherent = go.coherent; same = go.same })
    | inr e ↦ rw e (reply-Serves env _ s _ refl c)
  ]

  tx_details-Serves :
      (hash : String) (v : TxView) (s : AppState env)
      → on_decoded env hash (tx_by_hash env) s.db ≡ some (some v)
      → IsCoherent env s.db s.cache
      → Serves env (answer_of env (named tx hash)) s (tx_details env hash v s)
  unfolding tx_details key_text
  tx_details-Serves hash v s there c = statement-Serves env _ _ _ s c λ inputs s₁ e₁ same₁ c₁.
      statement-Serves env _ _ _ s₁ c₁ λ outputs s₂ e₂ same₂ c₂.
        cached_json-Serves env is_cache decimal (named tx hash) _ 60 s₂
          (rw (same₂, same₁) (whole s.db there e₁ (rw (sym same₁) e₂))) c₂
    where
      whole :
          (d : Db) {inputs : List InputView} {outputs : List OutputView}
          → on_decoded env hash (tx_by_hash env) d ≡ some (some v)
          → on_decoded env hash (inputs_of env) d ≡ some inputs
          → on_decoded env hash (outputs_of env) d ≡ some outputs
          → data_of env (named tx hash) d
            ≡ some (Body.tx (record { tx = v; inputs = inputs; outputs = outputs }))
      whole d p q r = unfold data_of in ground arith

  get_tx-Serves :
      (hash : String) (s : AppState env)
      → IsCoherent env s.db s.cache
      → Serves env
          (λ d. if_hash env hash "invalid hash" (answer_of env (named tx hash) d))
          s
          (get_tx env hash s)
  unfolding get_tx key_text data_of
  get_tx-Serves hash s c = hash-Serves (answer_of env (named tx hash)) "invalid hash" hash _ s c (
      unless_cached-Serves env is_cache decimal (named tx hash) _ s c λ s₁ _ c₁.
        statement-Serves env _ _ _ s₁ c₁ λ row s₂ e same c₂. replied row s₂ (rw same e) c₂)
    where
      replied :
          (row : Option TxView) (s : AppState env)
          → on_decoded env hash (tx_by_hash env) s.db ≡ some row
          → IsCoherent env s.db s.cache
          → Serves env
              (answer_of env (named tx hash))
              s
              (or_not_found env (tx_details env hash) row s)
      replied (some v) s e c = tx_details-Serves hash v s e c
      replied none s e c = reply-Serves env _ s _ (ground arith) c

  get_tx_rings-Serves :
      (hash : String) (s : AppState env)
      → IsCoherent env s.db s.cache
      → Serves env
          (λ d. if_hash env hash "invalid hash" (answer_of env (named rings hash) d))
          s
          (get_tx_rings env hash s)
  unfolding get_tx_rings key_text data_of
  get_tx_rings-Serves hash s c =
      hash-Serves (answer_of env (named rings hash)) "invalid hash" hash _ s c
        (rows-Serves (named rings hash) _ _ 60 s (λ d. refl) c)

  get_key_image-Serves :
      (hex : String) (s : AppState env)
      → IsCoherent env s.db s.cache
      → Serves env
          (λ d. if_hash env hex "invalid key image" (answer_of env (named key_image hex) d))
          s
          (get_key_image env hex s)
  unfolding get_key_image key_text data_of
  get_key_image-Serves hex s c =
      hash-Serves (answer_of env (named key_image hex)) "invalid key image" hex _ s c
        (row-Serves (named key_image hex) _ _ 120 s (λ d. refl) c)

  list_blocks-Serves :
      (p : Page) (s : AppState env)
      → IsCoherent env s.db s.cache
      → Serves env (λ d. listed env (page_of env p d) d) s (list_blocks env p s)
  unfolding list_blocks list_at page_of
  list_blocks-Serves p s c = at_start p.start
    where
      below :
          (highest : Option ℤ) (s : AppState env)
          → max_height s.db.blocks ≡ highest
          → IsCoherent env s.db s.cache
          → Serves env
              (λ d. listed env (page_of env (record { start = none; limit = p.limit }) d) d)
              s
              (list_below env (page_limit p.limit) highest s)
      below (some h) s e c =
          let v = list_from-Serves (page_limit p.limit) h s c in
          record { reply = rw e v.reply; coherent = v.coherent; same = v.same }
      below none s e c = reply-Serves env _ s _ (rw e refl) c

      at_start :
          (start : Option ℤ)
          → Serves env
              (λ d. listed env (page_of env (record { start = start; limit = p.limit }) d) d)
              s
              (list_at env (page_limit p.limit) start s)
      at_start (some (pos h)) = list_from-Serves (page_limit p.limit) (pos h) s c
      at_start (some (negsuc h)) = reply-Serves env _ s _ refl c
      at_start none =
          statement-Serves env _ _ _ s c
            λ highest s₂ e same c₂. below highest s₂ (rw same (cc e)) c₂

abbrev is_search : Request → Bool
is_search (Request.query q) = true
is_search _ = false

-- Where an entry of the cache was stored under its key, and numbers are written with digits: whatever
-- statements and commands fail, a request other than a search that meets a cache coherent with the
-- database is answered as without a cache, or with the status 500, and leaves the cache coherent and
-- the database as it was.
pub serve-Serves :
    (env : Env) (req : Request) (s : AppState env)
    → IsCache env.cache
    → IsDecimal env.show
    → is_search req ≡ false
    → IsCoherent env s.db s.cache
    → Serves env (answer env req) s (serve env req s)
unfolding serve answer healthz
serve-Serves env Request.health s is_cache decimal e c = reply-Serves env _ s _ refl c
serve-Serves env (Request.blocks p) s is_cache decimal e c =
    list_blocks-Serves env is_cache decimal p s c
serve-Serves env (Request.block id) s is_cache decimal e c =
    get_block-Serves env is_cache decimal id s c
serve-Serves env (Request.tx hash) s is_cache decimal e c =
    get_tx-Serves env is_cache decimal hash s c
serve-Serves env (Request.rings hash) s is_cache decimal e c =
    get_tx_rings-Serves env is_cache decimal hash s c
serve-Serves env Request.mempool s is_cache decimal e c =
    get_mempool-Serves env is_cache decimal s c
serve-Serves env (Request.key_image hex) s is_cache decimal e c =
    get_key_image-Serves env is_cache decimal hex s c
serve-Serves env (Request.query q) s is_cache decimal e c = absurd (cc e)
