-- ===== src/Fetch.antt =====
-- ingestor/src/fetch.rs: the transactions of a block, asked for in chunks whose size adapts.
pub mod Order
pub mod Progress
use block_ex.Prelude.{
  ℕ, zero, suc, ◌+◌, ◌/◌, max, Bool, true, false, List, [], ◌∷◌, ◌++◌, String, take, drop, ltb,
  if◌then◌else◌,
}
use block_ex.Result.{running}
use block_ex.Rpc.{GetTransactionsResult}
use block_ex.World.{Env, World, M, call, pure, lift, ◌>>=◌}

-- A chunk that the daemon did not have in full is halved, one that it had grows.
unfoldable pub shrink : ℕ → ℕ
shrink chunk = max (chunk / 2) 10

unfoldable pub grow : ℕ → ℕ
grow chunk = if ltb chunk 300 then chunk + 10 else chunk

module _ (env : Env) where
  -- What follows an answer. `again` is the next round of the loop.
  unfoldable pub take_answer :
      (List String → ℕ → List String → M (List String))
      → List String
      → ℕ
      → List String
      → GetTransactionsResult
      → M (List String)
  take_answer again hashes chunk out res = elim res.missed_tx [
    | _ ∷ _ ↦ again hashes (shrink chunk) out
    | [] ↦ again (drop chunk hashes) (grow chunk) (out ++ res.txs_as_json)
  ]

  -- The loop over `hashes[i..]`. The rate limiter only delays a round.
  unfoldable pub fetch_loop : ℕ → List String → ℕ → List String → M (List String)
  unfolding take_answer
  fetch_loop zero hashes chunk out = lift running
  fetch_loop (suc fuel) [] chunk out = pure out
  fetch_loop (suc fuel) (h ∷ hashes) chunk out = do
    res ← call (λ n. env.rpc.get_transactions n (take chunk (h ∷ hashes)))
    take_answer (fetch_loop fuel) (h ∷ hashes) chunk out res

  -- No fuel is enough for every daemon: see `Fetch/Progress.antt`.
  unfoldable pub fetch_txs_adaptive : ℕ → List String → ℕ → M (List String)
  fetch_txs_adaptive fuel hashes start_chunk = fetch_loop fuel hashes (max start_chunk 10) []
