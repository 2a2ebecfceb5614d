-- ===== src/Persist/Prepare/Rows.antt =====
-- work_persist.rs: what `prepare_block` makes of the texts of a block's transactions.
use mathlib.Core.List.{zip}
use block_ex.Prelude.{ℕ, ◌≡◌, Bool, Option, none, some, List, [], ◌∷◌, ◌++◌, String, length}
use block_ex.Prelude.Int.{pos}
use block_ex.Result.{Result}
use block_ex.Result.Ensures.{Ensures}
use block_ex.External.{Hex, Json}
use block_ex.Codec.{TxJson}
use block_ex.Pipeline.{TxMsg}
use block_ex.Persist.Prepare.{PreparedTx, Decoders}

-- The texts of a block's transactions, each with the hash that came with it: first the miner's, if the
-- block has both, and then the others.
abbrev pub miner_source : Option String → Option String → List (String × String)
miner_source (some text) (some hash) = (hash, text) ∷ []
miner_source _ _ = []

abbrev pub sources : TxMsg → List (String × String)
sources msg =
    miner_source msg.miner_tx_json msg.miner_tx_hash ++ zip msg.ordered_tx_hashes msg.tx_jsons

module _ (hex : Hex) (json : Json) (dec : Decoders json) where
  -- The transaction is read from the text. Its hash is the one that the text gives as `tx_hash`, or else
  -- as `hash`, or else the one that came with it; its inputs and outputs are counted.
  pub record IsReadFrom (fallback text : String) (t : PreparedTx) : Type 0 where
    pub tx : TxJson json
    pub value : json.Value
    pub parsed : dec.parse_tx_json text ≡ some tx
    pub read : json.from_str text ≡ some value
    pub named :
        (v : json.Value) (s : String)
        → json.get value "tx_hash" ≡ some v
        → json.as_str v ≡ some s
        → t.hash_hex ≡ s
    pub named_hash :
        (v : json.Value) (s : String)
        → json.get value "tx_hash" ≡ none
        → json.get value "hash" ≡ some v
        → json.as_str v ≡ some s
        → t.hash_hex ≡ s
    pub unnamed :
        json.get value "tx_hash" ≡ none → json.get value "hash" ≡ none → t.hash_hex ≡ fallback
    pub spelled : hex.decode t.hash_hex ≡ some t.hash
    pub version : t.version ≡ tx.version
    pub unlock_time : t.unlock_time ≡ pos tx.unlock_time
    pub extra : t.extra ≡ tx.extra
    pub inputs : t.num_inputs ≡ length tx.vin
    pub outputs : t.num_outputs ≡ length tx.vout

  -- One transaction for each text, in their order.
  abbrev pub AreReadFrom : List (String × String) → List PreparedTx → Type 0
  AreReadFrom [] [] = Unit
  AreReadFrom ((hash, text) ∷ pairs) (t ∷ txs) = IsReadFrom hash text t × AreReadFrom pairs txs
  AreReadFrom [] (t ∷ txs) = ⊥
  AreReadFrom (p ∷ pairs) [] = ⊥

  Counts : TxJson json → ℕ × ℕ × Bool → Type 0
  Counts tx c = (c.0 ≡ length tx.vin) × (c.1 ≡ length tx.vout)
