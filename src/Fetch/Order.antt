-- ===== src/Fetch/Order.antt =====
-- fetch.rs: the order in which the transactions come back.
use block_ex.Prelude.{
  ℕ, zero, suc, ◌≡◌, refl, sym, ap, ◌∙◌, some, List, [], ◌∷◌, ◌++◌, map, String, take, drop, arith,
  take-append-drop,
}
use mathlib.Core.List.{append-nil, append_assoc, map-append}
use block_ex.Result.{ok}
use block_ex.Rpc.{GetTransactionsResult}
use block_ex.World.{Env, World, M, call}
use block_ex.World.Laws.{>>=-eq-ok}
use block_ex.Fetch.{shrink, grow, take_answer, fetch_loop, fetch_txs_adaptive}

-- The daemon answers a request that it can meet in full by the transactions of its hashes, in order.
abbrev pub AnswersInOrder : Env → (String → String) → Type 0
AnswersInOrder env json_of =
    (n : ℕ) (hashes : List String) (res : GetTransactionsResult)
    → env.rpc.get_transactions n hashes ≡ some res
    → res.missed_tx ≡ []
    → res.txs_as_json ≡ map json_of hashes

module _ (env : Env) (json_of : String → String) (in_order : AnswersInOrder env json_of) where
  called :
      (hashes : List String) (w : World) {res : GetTransactionsResult} {w' : World}
      → call (λ n. env.rpc.get_transactions n hashes) w ≡ (ok res, w')
      → env.rpc.get_transactions w.calls hashes ≡ some res
  called hashes w h = ground arith

  map-take-drop :
      (chunk : ℕ) (hashes out : List String)
      → (out ++ map json_of (take chunk hashes)) ++ map json_of (drop chunk hashes)
        ≡ out ++ map json_of hashes
  map-take-drop chunk hashes out =
      append_assoc out _ _
      ∙ ap (λ l. out ++ l)
          (sym (map-append json_of (take chunk hashes) (drop chunk hashes))
            ∙ ap (map json_of) (take-append-drop chunk hashes))

  take_answer-eq :
      (again : List String → ℕ → List String → M (List String)) (hashes : List String) (chunk : ℕ)
      (out : List String) (res : GetTransactionsResult) (n : ℕ) (w : World) {got : List String}
      {w' : World}
      → ((hashes : List String) (chunk : ℕ) (out : List String)
          → again hashes chunk out w ≡ (ok got, w')
          → got ≡ out ++ map json_of hashes)
      → env.rpc.get_transactions n (take chunk hashes) ≡ some res
      → take_answer env again hashes chunk out res w ≡ (ok got, w')
      → got ≡ out ++ map json_of hashes
  unfolding take_answer
  take_answer-eq again hashes chunk out res n w {got} {w'} ih answered h = go res.missed_tx refl
    where
      go : (missed : List String) → res.missed_tx ≡ missed → got ≡ out ++ map json_of hashes
      go (_ ∷ _) e = ih hashes (shrink chunk) out (rw (e, take_answer) at h)
      go [] e =
          ih (drop chunk hashes) (grow chunk) (out ++ res.txs_as_json) (rw (e, take_answer) at h)
          ∙ ap (λ l. (out ++ l) ++ map json_of (drop chunk hashes))
              (in_order n (take chunk hashes) res answered e)
          ∙ map-take-drop chunk hashes out

  fetch_loop-eq :
      (fuel : ℕ) (hashes : List String) (chunk : ℕ) (out : List String) (w : World)
      {got : List String} {w' : World}
      → fetch_loop env fuel hashes chunk out w ≡ (ok got, w')
      → got ≡ out ++ map json_of hashes
  unfolding fetch_loop
  fetch_loop-eq zero hashes chunk out w h = absurd (cc (ap (λ r. r.0) h))
  fetch_loop-eq (suc fuel) [] chunk out w {got} h =
      let e : ok out ≡ ok got = ap (λ r. r.0) h in cc (e, append-nil out)
  fetch_loop-eq (suc fuel) (x ∷ hashes) chunk out w {got} {w'} h =
      let (res, w₁, asked, rest) =
        >>=-eq-ok (call (λ n. env.rpc.get_transactions n (take chunk (x ∷ hashes))))
          (take_answer env (fetch_loop env fuel) (x ∷ hashes) chunk out) w h in
      take_answer-eq (fetch_loop env fuel) (x ∷ hashes) chunk out res w.calls w₁
        (λ hashes' chunk' out' p. fetch_loop-eq fuel hashes' chunk' out' w₁ p)
        (called (take chunk (x ∷ hashes)) w asked) rest

  -- Where the daemon answers a request that it can meet in full by the transactions of the hashes in
  -- order: however it misses transactions and the chunks adapt, a fetch that returns has the
  -- transactions of all hashes, in their order, once each.
  pub fetch_txs_adaptive-eq-map :
      (fuel : ℕ) (hashes : List String) (start_chunk : ℕ) (w : World) {got : List String}
      {w' : World}
      → fetch_txs_adaptive env fuel hashes start_chunk w ≡ (ok got, w')
      → got ≡ map json_of hashes
  unfolding fetch_txs_adaptive
  fetch_txs_adaptive-eq-map fuel hashes start_chunk w h = fetch_loop-eq fuel hashes _ [] w h
