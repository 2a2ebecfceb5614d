-- ===== src/Txs.antt =====
-- ingestor/src/work_tx.rs: a block's transactions, paired with their hashes.
use mathlib.Core.List.{zip}
use mathlib.Core.Path.{subst, ap₂}
use block_ex.Prelude.{
  ℕ, ◌*◌, ◌≤◌, ◌≡◌, refl, ap, ◌∙◌, sym, min, max, not, List, [], ◌∷◌, map, String, length, ◌==◌,
  arith, if◌then◌else◌,
}
use block_ex.Result.{Result, ok, err, running, tx_count_mismatch}
use block_ex.Pipeline.{BlockMsg, TxMsg}
use block_ex.World.{Env, World, M, pure, raise, ◌>>=◌}
use block_ex.World.Laws.{>>=-eq-ok}
use block_ex.Fetch.{fetch_txs_adaptive}

-- `(concurrency.max(1) * 50).clamp(10, 300)`
unfoldable pub start_chunk : ℕ → ℕ
start_chunk concurrency = min (max (max concurrency 1 * 50) 10) 300

-- The first chunk has between 50 and 300 hashes.
pub start_chunk_bounds : (c : ℕ) → (50 ≤ start_chunk c) × (start_chunk c ≤ 300)
unfolding start_chunk
start_chunk_bounds c = (omega arith, omega arith)

module _ (env : Env) where
  unfoldable pub pair_up : List String → List String → M (List (String × String))
  pair_up hashes tx_jsons =
      if not (length tx_jsons == length hashes)
      then raise (tx_count_mismatch (length tx_jsons) (length hashes))
      else pure (zip hashes tx_jsons)

  unfoldable pub fetch_transactions : ℕ → List String → ℕ → M (List (String × String))
  unfolding pair_up
  fetch_transactions fuel [] concurrency = pure []
  fetch_transactions fuel (h ∷ hashes) concurrency = do
    tx_jsons ← fetch_txs_adaptive env fuel (h ∷ hashes) (start_chunk concurrency)
    pair_up (h ∷ hashes) tx_jsons

  -- The body of the loop of `run`: the message that is sent on.
  unfoldable pub process_block : ℕ → ℕ → BlockMsg → M TxMsg
  process_block fuel concurrency block_job = do
    pairs ← fetch_transactions fuel block_job.tx_hashes concurrency
    pure (record {
      height = block_job.height;
      block_hash = block_job.hash;
      tx_jsons = map (λ p. p.1) pairs;
      ts = block_job.ts;
      tip_height = block_job.tip_height;
      finalized_height = block_job.finalized_height;
      header = block_job.header;
      miner_tx_json = block_job.miner_tx_json;
      miner_tx_hash = block_job.miner_tx_hash;
      ordered_tx_hashes = map (λ p. p.0) pairs;
    })

map-zip :
    (xs ys : List String)
    → length ys ≡ length xs
    → (map (λ p. p.0) (zip xs ys) ≡ xs) × (map (λ p. p.1) (zip xs ys) ≡ ys)
unfolding zip
map-zip [] [] e = (refl, refl)
map-zip (x ∷ xs) (y ∷ ys) e =
    let r = map-zip xs ys (omega (arith, e)) in (ap (λ l. x ∷ l) r.0, ap (λ l. y ∷ l) r.1)
map-zip [] (y ∷ ys) e = absurd (omega (arith, e))
map-zip (x ∷ xs) [] e = absurd (omega (arith, e))

module _ (env : Env) where
  pair_up-ok :
      (hashes tx_jsons : List String) (w : World) {pairs : List (String × String)} {w' : World}
      → pair_up env hashes tx_jsons w ≡ (ok pairs, w')
      → (map (λ p. p.0) pairs ≡ hashes)
        × (map (λ p. p.1) pairs ≡ tx_jsons)
        × (length tx_jsons ≡ length hashes)
  pair_up-ok hashes tx_jsons w {pairs} {w'} h =
      let e = paired hashes tx_jsons w h in
      let r = map-zip hashes tx_jsons e.1 in
      (ap (map (λ p. p.0)) (sym e.0) ∙ r.0, ap (map (λ p. p.1)) (sym e.0) ∙ r.1, e.1)
    where
      paired :
          (hashes tx_jsons : List String) (w : World)
          → pair_up env hashes tx_jsons w ≡ (ok pairs, w')
          → (zip hashes tx_jsons ≡ pairs) × (length tx_jsons ≡ length hashes)
      paired hashes tx_jsons w h = unfold pair_up in (ground arith, ground arith)

  -- What a fetch has returned: nothing for no hashes, and else an answer to all of them.
  abbrev pub IsFetch : ℕ → ℕ → List String → World → List String → World → Type 0
  IsFetch fuel concurrency [] w tx_jsons w' = pure [] w ≡ (ok tx_jsons, w')
  IsFetch fuel concurrency (h ∷ hashes) w tx_jsons w' =
      fetch_txs_adaptive env fuel (h ∷ hashes) (start_chunk concurrency) w ≡ (ok tx_jsons, w')

  pair_up-world :
      (hashes tx_jsons : List String) (w : World) {pairs : List (String × String)} {w' : World}
      → pair_up env hashes tx_jsons w ≡ (ok pairs, w')
      → w ≡ w'
  unfolding pair_up
  pair_up-world hashes tx_jsons w h = ground arith

  fetch_transactions-ok :
      (fuel : ℕ) (hashes : List String) (concurrency : ℕ) (w : World)
      {pairs : List (String × String)} {w' : World}
      → fetch_transactions env fuel hashes concurrency w ≡ (ok pairs, w')
      → (map (λ p. p.0) pairs ≡ hashes)
        × (length (map (λ p. p.1) pairs) ≡ length hashes)
        × IsFetch fuel concurrency hashes w (map (λ p. p.1) pairs) w'
  unfolding fetch_transactions
  fetch_transactions-ok fuel [] concurrency w {pairs} {w'} h =
      let e : [] ≡ pairs = cc (ap (λ r. r.0) h) in
      subst
        (λ ps.
          (map (λ p. p.0) ps ≡ [])
          × (length (map (λ p. p.1) ps) ≡ 0)
          × (pure [] w ≡ (ok (map (λ p. p.1) ps), w')))
        e (refl, refl, ap (λ r. (ok [], r.1)) h)
  fetch_transactions-ok fuel (x ∷ hashes) concurrency w {pairs} {w'} h =
      let (jsons, w₁, fetched, rest) =
        >>=-eq-ok (fetch_txs_adaptive env fuel (x ∷ hashes) (start_chunk concurrency))
          (pair_up env (x ∷ hashes)) w h in
      let (firsts, seconds, many) = pair_up-ok (x ∷ hashes) jsons w₁ rest in
      (
        firsts,
        ap length seconds ∙ many,
        fetched ∙ ap₂ (λ l v. (ok l, v)) (sym seconds) (pair_up-world (x ∷ hashes) jsons w₁ rest),
      )

-- The message is the block's, with a text for each of its hashes in their order.
pub record IsFilledIn (job : BlockMsg) (msg : TxMsg) : Type 0 where
  pub hashes : msg.ordered_tx_hashes ≡ job.tx_hashes
  pub one_each : length msg.tx_jsons ≡ length job.tx_hashes
  pub height : msg.height ≡ job.height
  pub block_hash : msg.block_hash ≡ job.hash
  pub ts : msg.ts ≡ job.ts
  pub tip_height : msg.tip_height ≡ job.tip_height
  pub finalized_height : msg.finalized_height ≡ job.finalized_height
  pub header : msg.header ≡ job.header
  pub miner_tx_json : msg.miner_tx_json ≡ job.miner_tx_json
  pub miner_tx_hash : msg.miner_tx_hash ≡ job.miner_tx_hash

module _ (env : Env) where
  abbrev Passes : ℕ → ℕ → BlockMsg → World → World → Result TxMsg → Type 0
  Passes fuel concurrency job w w' (ok msg) =
      IsFilledIn job msg × IsFetch env fuel concurrency job.tx_hashes w msg.tx_jsons w'
  Passes fuel concurrency job w w' (err e) = Unit
  Passes fuel concurrency job w w' running = Unit

  -- Whatever the daemon answers, the message of a block that goes on has the block's hashes in their
  -- order and as many texts, which are those that a fetch of the hashes has returned, and it keeps
  -- the height, the hash, the time, the tips, the header and the miner's transaction of the block.
  pub process_block-ok :
      (fuel concurrency : ℕ) (job : BlockMsg) (w : World) {msg : TxMsg} {w' : World}
      → process_block env fuel concurrency job w ≡ (ok msg, w')
      → IsFilledIn job msg × IsFetch env fuel concurrency job.tx_hashes w msg.tx_jsons w'
  unfolding process_block
  process_block-ok fuel concurrency job w {msg} {w'} h =
      let (pairs, w₁, fetched, rest) =
        >>=-eq-ok (fetch_transactions env fuel job.tx_hashes concurrency) _ w h in
      let (firsts, many, got) =
        fetch_transactions-ok env fuel job.tx_hashes concurrency w fetched in
      subst (Passes fuel concurrency job w w') (ap (λ r. r.0) rest) (
        record {
          hashes = firsts;
          one_each = many;
          height = refl;
          block_hash = refl;
          ts = refl;
          tip_height = refl;
          finalized_height = refl;
          header = refl;
          miner_tx_json = refl;
          miner_tx_hash = refl;
        },
        subst (IsFetch env fuel concurrency job.tx_hashes w (map (λ p. p.1) pairs))
            (ap (λ r. r.1) rest) got,
      )
