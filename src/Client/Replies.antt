-- ===== src/Client/Replies.antt =====
-- ingestor/src/rpc.rs: which answers a call takes its value from.
use block_ex.Prelude.{
  ℕ, ◌≡◌, inl, inr, refl, ap, ◌∙◌, true, Bool-cases, Option, none, some, Option-cases, List, [],
  String, if◌then◌else◌,
}
use mathlib.Core.Path.{subst}
use text.Mathlib.Text.{◌==◌ as str_eq}
use text.Mathlib.TextEquality.{eq_iff}
use block_ex.External.{Json}
use block_ex.Rpc.{BlockHeader, GetBlockHeaderByHeightResult}
use block_ex.Result.{ok}
use block_ex.World.{Env, World}
use block_ex.Header.{HeaderFetcher, fetch}
use block_ex.Header.Ranges.{fetch-height}
use block_ex.Client.Wire.{
  Http, Schemas, Params, call, height, range, Answer, HeadersRange, RpcResponse, RpcError,
  success_or, as_failure, then_read, success, failure, untagged,
}
use block_ex.Client.{
  Rpc, ClientState, C, ◌>>=◌, pure, fail, counted, if_success, result_of, send, send_counted,
  is_success, raw_call, get_block_headers_range, get_block_header_by_height, as_monero_rpc,
}

bind-some {ℓ κ} :
    {A : Type ℓ} {B : Type κ} (m : C A) (f : A → C B) (s : ClientState) {b : B}
    → ((m >>= f) s).0 ≡ some b
    → (a : A) × ((m s).0 ≡ some a) × ((f a (m s).1).0 ≡ some b)
bind-some {A} m f s {b} h = elim (Option-cases (m s).0) [
  | inl e ↦ absurd (cc (rw e at h))
  | inr (a, e) ↦ (a, e, rw e at h)
]

counted-some {ℓ} :
    {A : Type ℓ} (method : String) (o : Option A) (s : ClientState) {a : A}
    → (counted method o s).0 ≡ some a
    → o ≡ some a
unfolding counted fail
counted-some method none s h = absurd (cc h)
counted-some method (some a) s h = h

if_success-some {ℓ} :
    {A : Type ℓ} (method : String) (status : ℕ) (rest : C A) (s : ClientState) {a : A}
    → (if_success method status rest s).0 ≡ some a
    → (is_success status ≡ true) × ((rest s).0 ≡ some a)
unfolding fail if_success
if_success-some method status rest s h = elim (Bool-cases (is_success status)) [
  | inl e ↦ (e, rw (e, if_success) at h)
  | inr e ↦ absurd (cc (rw (e, if_success) at h))
]

result_of-some {ℓ} :
    {A : Type ℓ} (method : String) (r : RpcResponse A) (s : ClientState) {a : A}
    → (result_of method r s).0 ≡ some a
    → r ≡ success a
unfolding result_of fail
result_of-some method (success a) s h = cc h
result_of-some method (failure e) s h = absurd (cc h)

success_or-success {ℓ} :
    {A : Type ℓ} (e : Option RpcError) (o : Option A) {a : A}
    → success_or (as_failure e) o ≡ some (success a)
    → o ≡ some a
success_or-success none none h = absurd (cc h)
success_or-success (some e) none h = absurd (cc h)
success_or-success e (some a) h = cc h

then_read-some {ℓ κ} :
    {V : Type ℓ} {A : Type κ} (f : V → Option A) (o : Option V) {a : A}
    → then_read f o ≡ some a
    → (v : V) × (o ≡ some v) × (f v ≡ some a)
then_read-some f none h = absurd (cc h)
then_read-some f (some v) h = (v, refl, h)

module _ (http : Http) (json : Json) (schemas : Schemas json) (rpc : Rpc) where
  -- The n-th request is answered with success by a JSON object whose result is read as the value.
  pub record IsReply {ℓ} {A : Type ℓ} (decode : json.Value → Option A) (method : String)
      (params : Params) (n : ℕ) (a : A) : Type ℓ where
    pub answer : Answer
    pub value : json.Value
    pub result : json.Value
    pub sent : http.send n (call rpc.base_json method params) ≡ some answer
    pub status : is_success answer.status ≡ true
    pub parsed : json.from_str answer.body ≡ some value
    pub has_result : json.get value "result" ≡ some result
    pub decoded : decode result ≡ some a

  raw_call-IsReply {ℓ} :
      {A : Type ℓ} (decode : json.Value → Option A) (method : String) (params : Params)
      (s : ClientState) {a : A}
      → (raw_call http json schemas rpc decode method params s).0 ≡ some a
      → IsReply decode method params s.requests a
  unfolding raw_call send_counted send untagged
  raw_call-IsReply decode method params s {a} h =
      let (res, sent, h₁) =
        bind-some (send_counted http json schemas rpc method (call rpc.base_json method params)) _ s
          h in
      let (v, parsed, h₂) = bind-some (counted method (json.from_str res.body)) _ _ h₁ in
      let (status, h₃) = if_success-some method res.status _ _ h₂ in
      let (response, read, h₄) =
        bind-some (counted method (untagged json decode schemas.rpc_error v)) _ _ h₃ in
      let whole = counted-some method _ _ read ∙ ap some (result_of-some method response _ h₄) in
      let (r, has, decoded) =
        then_read-some decode (json.get v "result") (success_or-success _ _ whole) in
      record {
        answer = res;
        value = v;
        result = r;
        sent = counted-some method _ _ sent;
        status = status;
        parsed = counted-some method _ _ parsed;
        has_result = has;
        decoded = decoded;
      }

  -- A range of headers is taken from an answer to its request that is a success, whose result has the
  -- status "OK" and these headers.
  pub get_block_headers_range-IsReply :
      (start end : ℕ) (s : ClientState) {headers : List BlockHeader}
      → (get_block_headers_range http json schemas rpc start end s).0 ≡ some headers
      → IsReply schemas.headers_range "get_block_headers_range"
          (range start end)
          s.requests
          (record { status = "OK"; headers = headers })
  unfolding get_block_headers_range
  get_block_headers_range-IsReply start end s {headers} h =
      let (r, got, rest) =
        bind-some
          (raw_call http json schemas rpc schemas.headers_range "get_block_headers_range"
            (range start end))
          _ s h in
      let reply =
        raw_call-IsReply schemas.headers_range "get_block_headers_range" (range start end) s got in
      subst (IsReply schemas.headers_range "get_block_headers_range" (range start end) s.requests)
        (taken r
          (raw_call http json schemas rpc schemas.headers_range "get_block_headers_range"
            (range start end) s).1
          rest)
        reply
    where
      taken :
          (r : HeadersRange) (t : ClientState)
          → ((if str_eq r.status "OK" then pure r.headers else fail "get_block_headers_range") t).0
            ≡ some headers
          → r ≡ record { status = "OK"; headers = headers }
      taken r t h = elim (Bool-cases (str_eq r.status "OK")) [
        | inl e ↦ let same = (eq_iff r.status "OK").0 e in let k = rw e at h in cc (same, k)
        | inr e ↦ absurd (cc (rw (e, fail) at h))
      ]

  -- Where the daemon replies to the request for the header of a height by the header of that height: a
  -- header that is fetched over this client, from a buffer, a range or by itself, has the height that
  -- was asked for.
  pub fetch-height_client :
      (env : Env) (hs : HeaderFetcher) (h : ℕ) (w : World) {header : BlockHeader}
      → ((n k : ℕ) (res : GetBlockHeaderByHeightResult)
          → IsReply schemas.header_by_height "get_block_header_by_height" (height k) n res
          → res.block_header.height ≡ k)
      → (fetch (record env { rpc = as_monero_rpc http json schemas rpc }) h hs w).0 ≡ ok header
      → header.height ≡ h
  unfolding as_monero_rpc get_block_header_by_height
  fetch-height_client env hs h w honest fetched =
      fetch-height (record env { rpc = as_monero_rpc http json schemas rpc })
        (λ n k res e. honest n k res (
          raw_call-IsReply schemas.header_by_height "get_block_header_by_height" (height k)
            (asked n) e))
        h hs w fetched
    where
      asked : ℕ → ClientState
      asked n = record { requests = n; rpc_errors = [] }
