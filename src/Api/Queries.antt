-- ===== src/Api/Queries.antt =====
-- api/src/routes.rs: the SQL statements of the handlers, as functions on the tables.
use mathlib.Core.Option
use block_ex.Prelude.{
  Bool, true, false, Option, none, some, List, [], ◌∷◌, ◌++◌, map, Bytes, leb, bytes_eq, keep, find,
  take,
}
use block_ex.Prelude.Int.{ℤ, pos, pos_part}
use block_ex.Prelude.Order.{leb_ℤ, eq_ℤ, max_ℤ}
use block_ex.Prelude.Sorting.{sort_by}
use block_ex.Db.{Db, BlockRow, TxRow, InputRow, OutputRow, RingRow, MempoolRow}
use block_ex.Api.{Env}
use block_ex.Api.Models.{
  BlockView, TxView, RingView, KeyImageView, MempoolView, InputView, OutputView,
}

-- `ORDER BY height DESC`, of rows of one height in the order of the table.
abbrev pub above : BlockRow → BlockRow → Bool
above a b = leb_ℤ b.height a.height

-- `MAX(height)`
unfoldable pub max_height : List BlockRow → Option ℤ
max_height [] = none
max_height (b ∷ bs) = elim (max_height bs) [
  | none ↦ some b.height
  | some h ↦ some (max_ℤ b.height h)
]

-- `ORDER BY t.block_height DESC NULLS LAST`
abbrev pub above_opt : Option ℤ → Option ℤ → Bool
above_opt none none = true
above_opt none (some k) = false
above_opt (some h) none = true
above_opt (some h) (some k) = leb_ℤ k h

-- `ORDER BY r.input_idx ASC, r.ring_index ASC`
abbrev lexi : Bool → Bool → Bool → Bool
lexi true true ring = ring
lexi true false ring = true
lexi false _ ring = false

abbrev pub before : RingView → RingView → Bool
before a b =
    lexi (leb_ℤ a.input_idx b.input_idx) (leb_ℤ b.input_idx a.input_idx)
      (leb_ℤ a.ring_index b.ring_index)

-- `JOIN public.txs t ON t.tx_hash = ti.tx_hash`
unfoldable pub join_txs : List TxRow → List InputRow → List (InputRow × TxRow)
join_txs txs [] = []
join_txs txs (i ∷ is) =
    map (λ t. (i, t)) (keep (λ t. bytes_eq t.tx_hash i.tx_hash) txs) ++ join_txs txs is

abbrev pub head {ℓ} : {A : Type ℓ} → List A → Option A
head [] = none
head (x ∷ xs) = some x

abbrev pub opt_is : Option ℤ → ℤ → Bool
opt_is none h = false
opt_is (some k) h = eq_ℤ k h

module _ (env : Env) where
  abbrev pub block_view : BlockRow → BlockView
  block_view b = record {
    height = b.height;
    hash = some (env.encode b.hash);
    ts = some b.block_timestamp;
    size_bytes = b.size_bytes;
    major_version = b.major_version;
    minor_version = b.minor_version;
    tx_count = b.tx_count;
    reward_nanos = b.reward_nanos;
  }

  abbrev tx_view : TxRow → TxView
  tx_view t = record {
    hash = some (env.encode t.tx_hash);
    block_height = t.block_height;
    ts = t.block_timestamp;
    in_mempool = t.in_mempool;
    fee_nanos = t.fee_nanos;
    size_bytes = t.size_bytes;
    version = t.version;
    unlock_time = t.unlock_time;
    extra_json = some (env.extra_text t.extra);
    rct_type = t.rct_type;
    proof_type = t.proof_type;
    bp_plus = t.bp_plus;
    num_inputs = t.num_inputs;
    num_outputs = t.num_outputs;
  }

  abbrev input_view : InputRow → InputView
  input_view i = record {
    idx = i.idx;
    key_image = env.encode i.key_image;
    ring_size = i.ring_size;
    pseudo_out = Option.map env.encode i.pseudo_out;
  }

  abbrev output_view : OutputRow → OutputView
  output_view o = record {
    idx_in_tx = o.idx_in_tx;
    global_index = o.global_index;
    amount = o.amount;
    commitment = env.encode o.commitment;
    stealth_public_key = env.encode o.stealth_public_key;
    spent_by_key_image = Option.map env.encode o.spent_by_key_image;
    spent_in_tx = Option.map env.encode o.spent_in_tx;
  }

  abbrev mempool_view : MempoolRow → MempoolView
  mempool_view r = record {
    hash = some (env.encode r.tx_hash);
    first_seen = some (pos r.first_seen);
    last_seen = some (pos r.last_seen);
    fee_rate = r.fee_rate;
    relayed_by = r.relayed_by;
  }

  -- `LEFT JOIN public.outputs`, by the primary key of that table.
  abbrev ring_view : List OutputRow → RingRow → RingView
  ring_view outputs r = record {
    tx_hash = some (env.encode r.tx_hash);
    input_idx = r.input_idx;
    ring_index = r.ring_index;
    global_index =
        elim (find (λ o. eq_ℤ o.output_id r.referenced_output_id) outputs) as (λ _. Option ℤ) [
          | none ↦ none
          | some o ↦ o.global_index
        ];
  }

  abbrev key_image_view : InputRow × TxRow → KeyImageView
  key_image_view (i, t) = record {
    key_image = some (env.encode i.key_image);
    spending_tx = some (env.encode t.tx_hash);
    block_height = t.block_height;
  }

  -- The page of `list_blocks`.
  unfoldable pub blocks_page : ℤ → ℤ → Db → List BlockView
  blocks_page start_height limit d =
      map block_view
        (take (pos_part limit) (sort_by above (keep (λ b. leb_ℤ b.height start_height) d.blocks)))

  unfoldable pub block_by_hash : Bytes → Db → Option BlockView
  block_by_hash h d = Option.map block_view (find (λ b. bytes_eq b.hash h) d.blocks)

  unfoldable pub block_by_height : ℤ → Db → Option BlockView
  block_by_height h d = Option.map block_view (find (λ b. eq_ℤ b.height h) d.blocks)

  unfoldable pub tx_by_hash : Bytes → Db → Option TxView
  tx_by_hash h d = Option.map tx_view (find (λ t. bytes_eq t.tx_hash h) d.txs)

  unfoldable pub inputs_of : Bytes → Db → List InputView
  inputs_of h d =
      map input_view
        (sort_by (λ a b. leb_ℤ a.idx b.idx) (keep (λ i. bytes_eq i.tx_hash h) d.tx_inputs))

  unfoldable pub outputs_of : Bytes → Db → List OutputView
  outputs_of h d =
      map output_view (
        sort_by (λ a b. leb_ℤ a.idx_in_tx b.idx_in_tx) (keep (λ o. bytes_eq o.tx_hash h) d.outputs))

  unfoldable pub latest_mempool : Db → List MempoolView
  latest_mempool d =
      map mempool_view (take 1000 (sort_by (λ a b. leb b.last_seen a.last_seen) d.mempool_txs))

  unfoldable pub ring_rows : Bytes → Db → List RingView
  ring_rows h d =
      sort_by before (map (ring_view d.outputs) (keep (λ r. bytes_eq r.tx_hash h) d.rings))

  unfoldable pub spent_key_image : Bytes → Db → Option KeyImageView
  unfolding join_txs
  spent_key_image h d = Option.map key_image_view (
      head (
        sort_by (λ a b. above_opt a.1.block_height b.1.block_height)
          (join_txs d.txs (keep (λ i. bytes_eq i.key_image h) d.tx_inputs))))
