-- ===== src/Client/Errors.antt =====
-- ingestor/src/rpc.rs: how the calls fail, and what is counted.
use block_ex.Prelude.{
  ℕ, ◌+◌, ◌≡◌, inl, inr, refl, ◌∙◌, Bool, true, false, Bool-cases, Option, none, some, List, [],
  ◌∷◌, ◌++◌, String, if◌then◌else◌,
}
use block_ex.External.{Json}
use text.Mathlib.Text.{◌==◌ as str_eq}
use block_ex.Client.Wire.{Http, Schemas, Request, Params, RpcResponse, success, failure}
use block_ex.Client.{
  Rpc, ClientState, C, ◌>>=◌, pure, fail, counted, if_success, result_of, send, send_counted,
  is_success, raw_call, get_block_header_by_height, get_block_headers_range, get_block,
  get_block_count, get_transactions, get_transaction_pool_hashes,
}

-- A call that gives a value counts no error, and one that gives none counts one, under its label.
pub data IsCounted {ℓ} {A : Type ℓ} (method : String) (s : ClientState) (r : Option A × ClientState)
    : Type ℓ where
  gave : (a : A) → r.0 ≡ some a → r.1.rpc_errors ≡ s.rpc_errors → IsCounted method s r
  gave_none : r.0 ≡ none → r.1.rpc_errors ≡ s.rpc_errors ++ method ∷ [] → IsCounted method s r

pub record Counts {ℓ} {A : Type ℓ} (method : String) (m : C A) : Type ℓ where
  pub at : (s : ClientState) → IsCounted method s (m s)

module _ (method : String) where
  same_errors {ℓ} :
      {A : Type ℓ} (s t : ClientState) (r : Option A × ClientState)
      → t.rpc_errors ≡ s.rpc_errors
      → IsCounted method t r
      → IsCounted method s r
  same_errors s t r k (gave b e l) = gave b e (l ∙ k)
  same_errors s t r k (gave_none e l) = gave_none e (rw k at l)

  Counts-pure {ℓ} : {A : Type ℓ} (a : A) → Counts method (pure a)
  Counts-pure a = record { at = λ s. gave a refl refl }

  Counts-fail {ℓ} : {A : Type ℓ} → Counts method (fail {A = A} method)
  unfolding fail
  Counts-fail = record { at = λ s. gave_none refl refl }

  Counts-bind {ℓ κ} :
      {A : Type ℓ} {B : Type κ} (m : C A) (f : A → C B)
      → Counts method m
      → ((a : A) → Counts method (f a))
      → Counts method (m >>= f)
  Counts-bind m f cm cf = record { at = λ s. go s (cm.at s) }
    where
      go : (s : ClientState) → IsCounted method s (m s) → IsCounted method s ((m >>= f) s)
      go s (gave_none e k) = rw e (gave_none refl k)
      go s (gave a e k) = rw e (same_errors s (m s).1 (f a (m s).1) k ((cf a).at (m s).1))

  Counts-counted {ℓ} : {A : Type ℓ} (o : Option A) → Counts method (counted method o)
  unfolding counted
  Counts-counted none = Counts-fail
  Counts-counted (some a) = Counts-pure a

  Counts-if_success {ℓ} :
      {A : Type ℓ} (status : ℕ) (rest : C A)
      → Counts method rest
      → Counts method (if_success method status rest)
  unfolding if_success
  Counts-if_success status rest c = elim (Bool-cases (is_success status)) [
    | inl e ↦ rw (e, if_success) c
    | inr e ↦ rw (e, if_success) Counts-fail
  ]

  module _ (http : Http) (json : Json) (schemas : Schemas json) (rpc : Rpc) where
    Counts-result_of {ℓ} : {A : Type ℓ} (r : RpcResponse A) → Counts method (result_of method r)
    unfolding result_of
    Counts-result_of (success a) = Counts-pure a
    Counts-result_of (failure e) = Counts-fail

    Counts-send_counted :
        (req : Request) → Counts method (send_counted http json schemas rpc method req)
    unfolding send_counted send
    Counts-send_counted req = record {
      at = λ s.
          same_errors s (record s { requests = s.requests + 1 }) _ refl
            ((Counts-counted (http.send s.requests req)).at
              (record s { requests = s.requests + 1 }));
    }

    Counts-raw_call {ℓ} :
        {A : Type ℓ} (decode : json.Value → Option A) (params : Params)
        → Counts method (raw_call http json schemas rpc decode method params)
    unfolding raw_call
    Counts-raw_call decode params = Counts-bind _ _ (Counts-send_counted _) λ res.
        Counts-bind _ _ (Counts-counted _) λ v.
          Counts-if_success res.status _
            (Counts-bind _ _ (Counts-counted _) λ response. Counts-result_of response)

  Counts-if {ℓ} :
      {A : Type ℓ} (b : Bool) (m : C A)
      → Counts method m
      → Counts method (if b then m else fail method)
  Counts-if true m c = c
  Counts-if false m c = Counts-fail

module _ (http : Http) (json : Json) (schemas : Schemas json) (rpc : Rpc) where
  Counts-get_block_headers_range :
      (start end : ℕ)
      → Counts "get_block_headers_range" (get_block_headers_range http json schemas rpc start end)
  unfolding get_block_headers_range
  Counts-get_block_headers_range start end =
      Counts-bind _ _ _ (Counts-raw_call _ http json schemas rpc _ _)
        λ r. Counts-if _ (str_eq r.status "OK") _ (Counts-pure _ r.headers)

  Counts-get_transactions :
      (hashes : List String)
      → Counts "get_transactions" (get_transactions http json schemas rpc hashes)
  unfolding get_transactions
  Counts-get_transactions hashes =
      Counts-bind _ _ _ (Counts-send_counted _ http json schemas rpc _)
        λ res. Counts-if_success _ res.status _ (Counts-counted _ (schemas.transactions res.body))

  Counts-get_transaction_pool_hashes :
      Counts "get_transaction_pool_hashes" (get_transaction_pool_hashes http json schemas rpc)
  unfolding get_transaction_pool_hashes
  Counts-get_transaction_pool_hashes =
      Counts-bind _ _ _ (Counts-send_counted _ http json schemas rpc _) λ res.
        Counts-bind _ _ _ (Counts-counted _ (schemas.pool_hashes res.body)) λ body.
          Counts-if_success _ res.status _
            (Counts-if _ (str_eq body.status "OK") _ (Counts-pure _ body.tx_hashes))

  -- Each of the six calls that fails has counted one error, under its own name, and one that succeeds
  -- has counted none.
  pub calls-Counts :
      ((h : ℕ)
        → Counts "get_block_header_by_height" (get_block_header_by_height http json schemas rpc h))
      × ((start end : ℕ)
          → Counts "get_block_headers_range"
              (get_block_headers_range http json schemas rpc start end))
      × ((hash : String) (fill_pow : Bool)
          → Counts "get_block" (get_block http json schemas rpc hash fill_pow))
      × Counts "get_block_count" (get_block_count http json schemas rpc)
      × ((hashes : List String)
          → Counts "get_transactions" (get_transactions http json schemas rpc hashes))
      × Counts "get_transaction_pool_hashes" (get_transaction_pool_hashes http json schemas rpc)
  unfolding get_block_header_by_height get_block get_block_count
  calls-Counts = (
    λ h. Counts-raw_call _ http json schemas rpc _ _,
    Counts-get_block_headers_range,
    λ hash fill_pow. Counts-raw_call _ http json schemas rpc _ _,
    Counts-raw_call _ http json schemas rpc _ _,
    Counts-get_transactions,
    Counts-get_transaction_pool_hashes,
  )
