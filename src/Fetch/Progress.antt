-- ===== src/Fetch/Progress.antt =====
-- When the loop of fetch.rs ends.
use block_ex.Prelude.{
  ℕ, zero, suc, ◌+◌, ◌-◌, ◌≤◌, ◌<◌, ◌≡◌, ◌≢◌, refl, max, none, some, Option, List, [], ◌∷◌, ◌++◌,
  String, take, drop, length, arith, length-drop,
}
use native.Mathlib.Decide.{dec_lt}
use block_ex.Result.{running}
use block_ex.Rpc.{GetTransactionsResult}
use block_ex.World.{Env, World, M, call, ◌>>=◌}
use block_ex.World.Rules.{HasEnded}
use block_ex.Fetch.{shrink, grow, take_answer, fetch_loop, fetch_txs_adaptive}

-- From the call with the number `m` on, no answer misses a transaction.
abbrev pub CatchesUp : Env → ℕ → Type 0
CatchesUp env m =
    (n : ℕ) (hashes : List String) (res : GetTransactionsResult)
    → m ≤ n
    → env.rpc.get_transactions n hashes ≡ some res
    → res.missed_tx ≡ []

big_chunk : (chunk : ℕ) → 10 ≤ chunk → (10 ≤ shrink chunk) × (10 ≤ grow chunk)
unfolding shrink grow
big_chunk chunk h = (omega arith, ground arith)

module _ (env : Env) where
  module _ (m : ℕ) (catches_up : CatchesUp env m) where
    early_miss :
        (n : ℕ) (hashes : List String) (res : GetTransactionsResult) (y : String) (l : List String)
        → env.rpc.get_transactions n hashes ≡ some res
        → res.missed_tx ≡ y ∷ l
        → n < m
    early_miss n hashes res y l e q = elim (dec_lt n m) [
      | yes h ↦ h
      | no h ↦ absurd (cc (q, catches_up n hashes res (omega arith) e))
    ]

    -- A round, after which the loop goes on with a call less before `m`, or with fewer hashes.
    answered-HasEnded :
        (again : List String → ℕ → List String → M (List String)) (x : String)
        (hashes : List String) (chunk : ℕ) (out : List String) (w : World)
        (answer : Option GetTransactionsResult)
        → env.rpc.get_transactions w.calls (take chunk (x ∷ hashes)) ≡ answer
        → (10 ≤ shrink chunk) × (10 ≤ grow chunk)
        → ((chunk' : ℕ) (out' : List String)
            → 10 ≤ chunk'
            → w.calls < m
            → HasEnded (again (x ∷ hashes) chunk' out' (record w { calls = w.calls + 1 })).0)
        → ((chunk' : ℕ) (out' : List String)
            → 10 ≤ chunk'
            → HasEnded
                (again (drop chunk (x ∷ hashes)) chunk' out' (record w { calls = w.calls + 1 })).0)
        → HasEnded
            ((call (λ n. env.rpc.get_transactions n (take chunk (x ∷ hashes)))
                >>= take_answer env again (x ∷ hashes) chunk out)
              w).0
    unfolding take_answer
    answered-HasEnded again x hashes chunk out w none e sizes missed met = rw e tt
    answered-HasEnded again x hashes chunk out w (some res) e sizes missed met =
        rw e (go res.missed_tx refl)
      where
        go :
            (l : List String)
            → res.missed_tx ≡ l
            → HasEnded
                (take_answer env again
                  (x ∷ hashes)
                  chunk
                  out
                  res
                  (record w { calls = w.calls + 1 })).0
        go [] q = rw (q, take_answer) (met (grow chunk) (out ++ res.txs_as_json) sizes.1)
        go (y ∷ l) q =
            rw (q, take_answer)
              (missed (shrink chunk) out sizes.0
                (early_miss w.calls (take chunk (x ∷ hashes)) res y l e q))

    fetch_loop-HasEnded :
        (fuel : ℕ) (hashes : List String) (chunk : ℕ) (out : List String) (w : World)
        → 10 ≤ chunk
        → (m - w.calls) + length hashes < fuel
        → HasEnded (fetch_loop env fuel hashes chunk out w).0
    unfolding fetch_loop take_answer
    fetch_loop-HasEnded zero hashes chunk out w big enough = absurd (omega arith)
    fetch_loop-HasEnded (suc fuel) [] chunk out w big enough = tt
    fetch_loop-HasEnded (suc fuel) (x ∷ hashes) chunk out w big enough =
        answered-HasEnded (fetch_loop env fuel) x hashes chunk out w _ refl (big_chunk chunk big)
          (λ chunk' out' big' early.
            fetch_loop-HasEnded fuel (x ∷ hashes) chunk' out' _ big' (omega (arith, enough)))
          (λ chunk' out' big'.
            fetch_loop-HasEnded fuel (drop chunk (x ∷ hashes)) chunk' out' _ big'
              (omega (arith, enough, length-drop chunk (x ∷ hashes))))

    -- If the daemon misses nothing from the call `m` on, the fetch ends, with the transactions or an
    -- error, within a round for each call before `m` and each hash, and one more.
    pub fetch_txs_adaptive_total :
        (fuel : ℕ) (hashes : List String) (start_chunk : ℕ) (w : World)
        → (m - w.calls) + length hashes < fuel
        → HasEnded (fetch_txs_adaptive env fuel hashes start_chunk w).0
    unfolding fetch_txs_adaptive
    fetch_txs_adaptive_total fuel hashes start_chunk w enough =
        fetch_loop-HasEnded fuel hashes (max start_chunk 10) [] w (omega arith) enough

  module _
      (misses : (n : ℕ) (hashes : List String)
        → hashes ≢ []
        → (res : GetTransactionsResult) × (env.rpc.get_transactions n hashes ≡ some res)
          × (res.missed_tx ≢ [])) where
    take-ne-nil :
        (chunk : ℕ) (x : String) (hashes : List String) → 1 ≤ chunk → take chunk (x ∷ hashes) ≢ []
    take-ne-nil zero x hashes h = absurd (omega arith)
    take-ne-nil (suc c) x hashes h = λ e. cc

    fetch_loop-eq-running :
        (fuel : ℕ) (x : String) (hashes : List String) (chunk : ℕ) (out : List String) (w : World)
        → 10 ≤ chunk
        → (fetch_loop env fuel (x ∷ hashes) chunk out w).0 ≡ running
    unfolding fetch_loop
    fetch_loop-eq-running zero x hashes chunk out w h = refl
    fetch_loop-eq-running (suc fuel) x hashes chunk out w h =
        let (res, e, missing) =
          misses w.calls (take chunk (x ∷ hashes)) (take-ne-nil chunk x hashes (omega arith)) in
        rw e (
          go res missing
            (fetch_loop-eq-running fuel x hashes (shrink chunk) out
              (record w { calls = w.calls + 1 }) (big_chunk chunk h).0)
            res.missed_tx refl)
      where
        w₁ : World
        w₁ = record w { calls = w.calls + 1 }

        go :
            (res : GetTransactionsResult)
            → res.missed_tx ≢ []
            → (fetch_loop env fuel (x ∷ hashes) (shrink chunk) out w₁).0 ≡ running
            → (l : List String) → res.missed_tx ≡ l
            → (take_answer env (fetch_loop env fuel) (x ∷ hashes) chunk out res w₁).0 ≡ running
        go res missing ih [] q = absurd (missing q)
        go res missing ih (y ∷ l) q = rw (q, take_answer) ih

    -- If the daemon answers every request for one hash or more with something missing, then no number
    -- of rounds ends the fetch of one hash or more.
    pub fetch_txs_adaptive-eq-running :
        (fuel : ℕ) (x : String) (hashes : List String) (start_chunk : ℕ) (w : World)
        → (fetch_txs_adaptive env fuel (x ∷ hashes) start_chunk w).0 ≡ running
    unfolding fetch_txs_adaptive
    fetch_txs_adaptive-eq-running fuel x hashes start_chunk w =
        fetch_loop-eq-running fuel x hashes (max start_chunk 10) [] w (omega arith)
