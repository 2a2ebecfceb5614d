-- ===== src/Client/Wire.antt =====
-- ingestor/src/rpc.rs: what goes over the wire, and how an untagged response is read.
use Prim.Native.String.{String}
use block_ex.Prelude.{ℕ, Bool, Option, none, some, List}
use block_ex.Prelude.Int.{ℤ}
use block_ex.External.{Json}
use block_ex.Rpc.{
  BlockHeader, GetBlockHeaderByHeightResult, GetBlockResult, GetTransactionsResult,
  GetBlockCountResult,
}

-- The parameters of the calls: `P` of each function.
pub data Params : Type 0 where
  unit : Params
  height : ℕ → Params
  range : ℕ → ℕ → Params
  block : String → Bool → Params
  txs_hashes : List String → Bool → Bool → Params

-- A request with its address. `call` posts a `Req` with the version "2.0", the id 1 and a method.
pub data Request : Type 0 where
  call : String → String → Params → Request
  post : String → Params → Request
  get : String → Request
  head : String → Request

-- What comes back: a status and a body.
pub record Answer : Type 0 where
  pub status : ℕ
  pub body : String

-- `reqwest::Client`, whose `send` sees how many requests were sent before, or fails.
pub record Http : Type 0 where
  pub send : ℕ → Request → Option Answer

pub record RpcError : Type 0 where
  pub code : ℤ
  pub message : String

-- `R` of `get_block_headers_range`.
pub record HeadersRange : Type 0 where
  pub status : String
  pub headers : List BlockHeader

pub record RestResponse : Type 0 where
  pub status : String
  pub tx_hashes : List String

-- The derived deserializers.
pub record Schemas (json : Json) : Type 1 where
  pub rpc_error : json.Value → Option RpcError
  pub header_by_height : json.Value → Option GetBlockHeaderByHeightResult
  pub headers_range : json.Value → Option HeadersRange
  pub block : json.Value → Option GetBlockResult
  pub block_count : json.Value → Option GetBlockCountResult
  pub transactions : String → Option GetTransactionsResult
  pub pool_hashes : String → Option RestResponse

pub data RpcResponse {ℓ} (T : Type ℓ) : Type ℓ where
  success : T → RpcResponse T
  failure : RpcError → RpcResponse T

abbrev pub as_failure {ℓ} : {A : Type ℓ} → Option RpcError → Option (RpcResponse A)
as_failure none = none
as_failure (some e) = some (failure e)

abbrev pub success_or {ℓ} :
    {A : Type ℓ} → Option (RpcResponse A) → Option A → Option (RpcResponse A)
success_or other none = other
success_or other (some a) = some (success a)

abbrev pub then_read {ℓ κ} : {V : Type ℓ} {A : Type κ} → (V → Option A) → Option V → Option A
then_read f none = none
then_read f (some v) = f v

-- The variants of an untagged enum are tried in their order: the field `result`, then `error`.
unfoldable pub untagged {ℓ} :
    {A : Type ℓ} (json : Json)
    → (json.Value → Option A)
    → (json.Value → Option RpcError)
    → json.Value
    → Option (RpcResponse A)
untagged json result error v =
    success_or (as_failure (then_read error (json.get v "error")))
      (then_read result (json.get v "result"))
