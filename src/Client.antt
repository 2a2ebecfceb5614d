-- ===== src/Client.antt =====
-- ingestor/src/rpc.rs, `Rpc`: the client of the daemon over HTTP.
pub mod Wire
pub mod Errors
pub mod Replies
use Prim.Native.Char.{Char, code}
use Prim.Native.String.{String, ◌++◌ as ◌++ˢ◌, [] as nil, ◌∷◌ as ◌∷ˢ◌}
use text.Mathlib.Text.{◌==◌ as str_eq}
use block_ex.Prelude.{
  ℕ, ◌+◌, ◌==◌, ◌&&◌, not, Bool, true, false, Option, none, some, List, [], ◌∷◌, ◌++◌, leb, ltb,
  if◌then◌else◌,
}
use block_ex.Prelude.Int.{ℤ}
use block_ex.External.{Json}
use block_ex.Rpc.{
  MoneroRpc, Capabilities, BlockHeader, GetBlockHeaderByHeightResult, GetBlockResult,
  GetTransactionsResult, GetBlockCountResult,
}
use block_ex.Client.Wire.{
  Params, unit, height, range, block, txs_hashes, Request, call, post, get, head, Answer, Http,
  Schemas, RpcResponse, success, failure, untagged,
}

-- `strip_suffix(…).unwrap_or(…)`
unfoldable pub strip_suffix : String → String → Option String
strip_suffix suffix nil = if str_eq nil suffix then some nil else none
strip_suffix suffix (c ∷ˢ s) =
    let rest = strip_suffix suffix s in
    if str_eq (c ∷ˢ s) suffix then some nil else elim rest [ none ↦ none | some t ↦ some (c ∷ˢ t) ]

-- `trim_end_matches`
unfoldable pub trim_end_matches : ℕ → String → String
trim_end_matches d nil = nil
trim_end_matches d (c ∷ˢ s) =
    let rest = trim_end_matches d s in if (code c == d) && str_eq rest nil then nil else c ∷ˢ rest

abbrev or_base : String → Option String → String
or_base base none = base
or_base base (some s) = s

pub record Rpc : Type 0 where
  pub base_json : String
  pub base_rest : String

unfoldable pub new : String → Rpc
unfolding strip_suffix trim_end_matches
new base = record {
  base_json = base;
  base_rest = trim_end_matches 47 (or_base base (strip_suffix "/json_rpc" base));
}

-- How many requests were sent, and the labels of the counter `rpc_errors_total`, each time that it
-- was incremented.
pub record ClientState : Type 0 where
  pub requests : ℕ
  pub rpc_errors : List String

abbrev pub C {ℓ} : Type ℓ → Type ℓ
C A = ClientState → Option A × ClientState

abbrev continue {ℓ κ} : {A : Type ℓ} {B : Type κ} → Option A → (A → C B) → C B
continue (some a) f s = f a s
continue none f s = (none, s)

infixl 5 ◌>>=◌
abbrev pub ◌>>=◌ {ℓ κ} : {A : Type ℓ} {B : Type κ} → C A → (A → C B) → C B
◌>>=◌ m f s = continue (m s).0 f (m s).1

abbrev pub pure {ℓ} : {A : Type ℓ} → A → C A
pure a s = (some a, s)

-- `record_rpc_error(method)`, and the error that is returned.
unfoldable pub fail {ℓ} : {A : Type ℓ} → String → C A
fail method s = (none, record s { rpc_errors = s.rpc_errors ++ method ∷ [] })

-- `.map_err(|err| { record_rpc_error(method); err })`
unfoldable pub counted {ℓ} : {A : Type ℓ} → String → Option A → C A
unfolding fail
counted method none = fail method
counted method (some a) = pure a

-- `StatusCode::is_success`
abbrev pub is_success : ℕ → Bool
is_success status = leb 200 status && ltb status 300

-- The answer to a call that came back.
unfoldable pub result_of {ℓ} : {A : Type ℓ} → String → RpcResponse A → C A
unfolding fail
result_of method (success result) = pure result
result_of method (failure error) = fail method

unfoldable pub if_success {ℓ} : {A : Type ℓ} → String → ℕ → C A → C A
unfolding fail
if_success method status rest = elim (is_success status) [ true ↦ rest | false ↦ fail method ]

module _ (http : Http) (json : Json) (schemas : Schemas json) (rpc : Rpc) where
  unfoldable pub send : Request → ClientState → Option Answer × ClientState
  send req s = (http.send s.requests req, record s { requests = s.requests + 1 })

  -- A request whose failure is counted.
  unfoldable pub send_counted : String → Request → C Answer
  unfolding send counted
  send_counted method req s = let (r, s') = send req s in counted method r s'

  unfoldable pub raw_call {ℓ} : {A : Type ℓ} → (json.Value → Option A) → String → Params → C A
  unfolding send_counted counted if_success result_of
  raw_call decode method params = do
    res ← send_counted method (call rpc.base_json method params)
    v ← counted method (json.from_str res.body)
    if_success method res.status (do
      response ← counted method (untagged json decode schemas.rpc_error v)
      result_of method response)

  abbrev is_some {ℓ} : {A : Type ℓ} → Option A → Bool
  is_some none = false
  is_some (some a) = true

  abbrev succeeded : Option Answer → Bool
  succeeded none = false
  succeeded (some res) = is_success res.status

  -- `match head { Ok(res) if success => true, _ => match get { … } }`
  abbrev or_get : String → Option Answer × ClientState → Bool × ClientState
  or_get url (r, s) = elim (succeeded r) as (λ _. Bool × ClientState) [
    | true ↦ (true, s)
    | false ↦ let (r', s') = send (get url) s in (succeeded r', s')
  ]

  unfoldable pub probe_caps : ClientState → Capabilities × ClientState
  unfolding raw_call send
  probe_caps s =
      let (hdrs, s₁) = raw_call (λ v. some v) "get_block_headers_range" (range 0 0) s in
      let url = rpc.base_rest ++ˢ "/get_blocks_by_height.bin?heights=0" in
      let (bin_ok, s₂) = or_get url (send (head url) s₁) in
      (record { headers_range = is_some hdrs; blocks_by_height_bin = bin_ok }, s₂)

  unfoldable pub get_block_header_by_height : ℕ → C GetBlockHeaderByHeightResult
  get_block_header_by_height h =
      raw_call schemas.header_by_height "get_block_header_by_height" (height h)

  unfoldable pub get_block_headers_range : ℕ → ℕ → C (List BlockHeader)
  unfolding raw_call fail
  get_block_headers_range start end = do
    r ← raw_call schemas.headers_range "get_block_headers_range" (range start end)
    if str_eq r.status "OK" then pure r.headers else fail "get_block_headers_range"

  unfoldable pub get_block : String → Bool → C GetBlockResult
  get_block hash fill_pow = raw_call schemas.block "get_block" (block hash fill_pow)

  unfoldable pub get_block_count : C GetBlockCountResult
  get_block_count = raw_call schemas.block_count "get_block_count" unit

  unfoldable pub get_transactions : List String → C GetTransactionsResult
  unfolding send_counted if_success counted
  get_transactions hashes = do
    res ←
        send_counted "get_transactions"
          (post (rpc.base_rest ++ˢ "/get_transactions") (txs_hashes hashes true false))
    if_success "get_transactions" res.status
        (counted "get_transactions" (schemas.transactions res.body))

  unfoldable pub get_transaction_pool_hashes : C (List String)
  unfolding send_counted if_success counted fail
  get_transaction_pool_hashes = do
    res ←
        send_counted "get_transaction_pool_hashes"
          (get (rpc.base_rest ++ˢ "/get_transaction_pool_hashes"))
    body ← counted "get_transaction_pool_hashes" (schemas.pool_hashes res.body)
    if_success "get_transaction_pool_hashes" res.status (
        if str_eq body.status "OK" then pure body.tx_hashes else fail "get_transaction_pool_hashes")

  abbrev asked : ℕ → ClientState
  asked n = record { requests = n; rpc_errors = [] }

  -- `impl MoneroRpc for Rpc`, where a call is told apart by the number of requests before it.
  unfoldable pub as_monero_rpc : MoneroRpc
  unfolding get_block_header_by_height get_block_headers_range get_block get_transactions
      get_block_count get_transaction_pool_hashes probe_caps
  as_monero_rpc = record {
    get_block_header_by_height = λ n h. (get_block_header_by_height h (asked n)).0;
    get_block_headers_range = λ n start end. (get_block_headers_range start end (asked n)).0;
    get_block = λ n hash fill_pow. (get_block hash fill_pow (asked n)).0;
    get_transactions = λ n hashes. (get_transactions hashes (asked n)).0;
    get_block_count = λ n. (get_block_count (asked n)).0;
    get_transaction_pool_hashes = λ n. (get_transaction_pool_hashes (asked n)).0;
    probe_caps = λ n. (probe_caps (asked n)).0;
  }
