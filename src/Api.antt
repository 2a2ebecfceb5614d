-- ===== src/Api.antt =====
-- api/src/util.rs and state.rs: the responses of the API, its cache and its statements.
pub mod Models
pub mod Queries
pub mod Routes
pub mod Router
pub mod Keys
pub mod Answers
pub mod Cached
pub mod Serve
pub mod Paging
pub mod Rings
pub mod Search
use Prim.Native.Char.{Char, code}
use Prim.Native.String.{len, ◌++◌ as ◌++ˢ◌, [] as nil, ◌∷◌ as ◌∷ˢ◌}
use block_ex.Prelude.{
  ℕ, ◌+◌, ◌==◌, ◌&&◌, ◌||◌, Bool, true, false, Option, none, some, String, Bytes, leb,
  if◌then◌else◌,
}
use block_ex.Prelude.Int.{ℤ}
use block_ex.Db.{Db}
use block_ex.Api.Models.{Body}

-- The Redis behind the cache. A command sees the number of commands before it: it may fail, and an
-- entry may have gone by the time it is asked for. A `get` that fails finds nothing, as the code takes
-- it, and a `setex` that fails leaves the state.
pub record Cache : Type 1 where
  pub State : Type 0
  pub get : ℕ → String → State → Option Bytes
  pub setex : ℕ → String → ℕ → Bytes → State → State

-- What surrounds the API. `faults n` says that the n-th statement fails, with the text
-- `error_text n`; `decode` and `encode` are those of the database, and so is `extra_text`, which writes
-- the column `extra`. `to_vec` is the derived serializer, `sha256_hex` the digest as a text, `show` and
-- `parse_i64` are those of i64, and `trim` is that of str.
pub record Env : Type 1 where
  pub faults : ℕ → Bool
  pub error_text : ℕ → String
  pub decode : String → Option Bytes
  pub encode : Bytes → String
  pub extra_text : String → String
  pub cache : Cache
  pub to_vec : Body → Bytes
  pub sha256_hex : Bytes → String
  pub show : ℤ → String
  pub parse_i64 : String → Option ℤ
  pub trim : String → String

pub record Response : Type 0 where
  pub status : ℕ
  pub content_type : String
  pub etag : String
  pub payload : Bytes

-- `char::is_ascii_hexdigit`
unfoldable pub is_hexdigit : ℕ → Bool
is_hexdigit c = (leb 48 c && leb c 57) || (leb 65 c && leb c 70) || (leb 97 c && leb c 102)

unfoldable pub all_hexdigit : String → Bool
unfolding is_hexdigit
all_hexdigit nil = true
all_hexdigit (c ∷ˢ s) = is_hexdigit (code c) && all_hexdigit s

unfoldable pub is_hex_64 : String → Bool
unfolding all_hexdigit
is_hex_64 value = (len value == 64) && all_hexdigit value

module _ (env : Env) where
  -- The database, the cache, and how many statements and commands they have been sent.
  pub record AppState : Type 0 where
    pub db : Db
    pub cache : env.cache.State
    pub statements : ℕ
    pub commands : ℕ

  abbrev pub Handler : Type 0
  Handler = AppState → Response × AppState

  unfoldable pub make_json_response : Bytes → ℕ → Response
  make_json_response payload status = record {
    status = status;
    content_type = "application/json";
    etag = "W/\"" ++ˢ (env.sha256_hex payload ++ˢ "\"");
    payload = payload;
  }

  unfoldable pub json_ok : Body → Response
  unfolding make_json_response
  json_ok body = make_json_response (env.to_vec body) 200

  unfoldable pub json_err : ℕ → String → Response
  unfolding make_json_response
  json_err code msg = make_json_response (env.to_vec (Body.error msg)) code

  unfoldable pub cached_json : String → Body → ℕ → Handler
  unfolding make_json_response
  cached_json key body ttl_secs s =
      let payload = env.to_vec body in
      (
        make_json_response payload 200,
        record s {
          cache = env.cache.setex s.commands key ttl_secs payload s.cache;
          commands = s.commands + 1;
        },
      )

  unfoldable pub cached_response : String → AppState → Option Response × AppState
  unfolding make_json_response
  cached_response key s =
      let s' = record s { commands = s.commands + 1 } in
      elim (env.cache.get s.commands key s.cache) [
        | some bytes ↦ (some (make_json_response bytes 200), s')
        | none ↦ (none, s')
      ]

  -- `if let Some(resp) = cached_response(…) { return resp; }`, and the rest of the handler.
  abbrev pub or_else : Handler → Option Response × AppState → Response × AppState
  or_else rest (some resp, s) = (resp, s)
  or_else rest (none, s) = rest s

  unfoldable pub unless_cached : String → Handler → Handler
  unfolding cached_response
  unless_cached key rest s = or_else rest (cached_response key s)

  -- A statement, which may fail by itself, with what the handler does in either case.
  unfoldable pub statement {ℓ} :
      {A : Type ℓ} → (Db → Option A) → (A → Handler) → (String → Handler) → Handler
  statement f rest failed s =
      let s' = record s { statements = s.statements + 1 } in
      if env.faults s.statements then failed (env.error_text s.statements) s' else elim (f s.db) [
        | some rows ↦ rest rows s'
        | none ↦ failed (env.error_text s.statements) s'
      ]

  -- `json_err(500, &format!("db error: {e}"))`
  abbrev pub db_error : String → Handler
  db_error e s = (json_err 500 ("db error: " ++ˢ e), s)

  abbrev pub reply : Response → Handler
  reply r s = (r, s)
