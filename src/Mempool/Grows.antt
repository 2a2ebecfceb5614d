-- ===== src/Mempool/Grows.antt =====
-- What the watcher of mempool.rs does to the database.
use block_ex.Prelude.{
  ◌≡◌, refl, sym, ap, ◌∙◌, true, Bool-cases, inl, inr, some, List, [], ◌∷◌, String, Bytes, arith,
}
use mathlib.Core.Path.{subst}
use block_ex.Result.{Result, ok, err, running}
use block_ex.Db.{Db}
use block_ex.World.{Env, World, M, continue, call, transaction, ◌>>=◌}
use block_ex.World.Laws.{>>=-eq-ok, transaction-ok, HasFailed, database-transaction}
use block_ex.Store.{requeue_rows}
use block_ex.Store.Mempool.{in_mempool, others, Requeued, requeue_rows-ok}
use block_ex.Mempool.{
  Event, received, timed_out, failed, is_watched, topic_of, logged, store_pool, refresh_from_pool,
  on_event, watch, run,
}

-- The mempool has lost nothing, and all else is the same.
pub record Grows (d d' : Db) : Type 0 where
  pub same : others d' ≡ others d
  pub kept : (k : Bytes) → in_mempool k d ≡ true → in_mempool k d' ≡ true

Grows-refl : (d d' : Db) → d' ≡ d → Grows d d'
Grows-refl d d' e = record { same = ap others e; kept = λ k h. ap (in_mempool k) e ∙ h }

Grows-trans : (d d₁ d₂ : Db) → Grows d d₁ → Grows d₁ d₂ → Grows d d₂
Grows-trans d d₁ d₂ g h = record { same = h.same ∙ g.same; kept = λ k p. h.kept k (g.kept k p) }

-- The action lets the mempool grow, whether it succeeds or fails.
record LetsGrow {A : Type 0} (m : M A) : Type 0 where
  at : (w : World) → Grows w.database (m w).1.database

LetsGrow-bind :
    {A B : Type 0} (m : M A) (f : A → M B)
    → LetsGrow m
    → ((a : A) → LetsGrow (f a))
    → LetsGrow (m >>= f)
LetsGrow-bind m f km kf = record { at = λ w. go w.database (m w).0 (m w).1 (km.at w) }
  where
    go :
        (d : Db) (r : Result _) (w' : World)
        → Grows d w'.database
        → Grows d (continue r f w').1.database
    go d (ok a) w' g = Grows-trans d w'.database _ g ((kf a).at w')
    go d (err e) w' g = g
    go d running w' g = g

module _ (env : Env) where
  store_pool-ok :
      (hashes : List String) (w : World) {u : Unit {0}} {w' : World}
      → store_pool env hashes w ≡ (ok u, w')
      → Requeued env hashes w.database w'.database
  unfolding store_pool requeue_rows
  store_pool-ok [] w {u} {w'} h = requeue_rows-ok env [] w {u = u} {w' = w'} h
  store_pool-ok (s ∷ hashes) w {u} {w'} h =
      let (w₀, w₁, before, ran, after) = transaction-ok env (requeue_rows env (s ∷ hashes)) w h in
      subst (λ d. Requeued env (s ∷ hashes) d w'.database) before
        (subst (λ d. Requeued env (s ∷ hashes) w₀.database d) (sym after)
          (requeue_rows-ok env (s ∷ hashes) w₀ ran))

  -- When `refresh_from_pool` succeeds, the daemon has told its pool, the hashes of the pool that the
  -- database decodes are in the mempool, which has lost nothing, and all else is the same.
  pub refresh_from_pool-ok :
      (w : World) {u : Unit {0}} {w' : World}
      → refresh_from_pool env w ≡ (ok u, w')
      → (hashes : List String) × (env.rpc.get_transaction_pool_hashes w.calls ≡ some hashes)
        × Requeued env hashes w.database w'.database
  unfolding refresh_from_pool
  refresh_from_pool-ok w {u} {w'} h =
      let (hashes, w₁, told, stored) =
        >>=-eq-ok (call (λ n. env.rpc.get_transaction_pool_hashes n)) _ w h in
      (
        hashes,
        ground arith,
        subst (λ d. Requeued env hashes d w'.database) (sym (ap (λ r. r.1.database) told))
            (store_pool-ok hashes w₁ stored),
      )

  store_pool-LetsGrow : (hashes : List String) → LetsGrow (store_pool env hashes)
  unfolding store_pool
  store_pool-LetsGrow [] = record { at = λ w. Grows-refl w.database w.database refl }
  store_pool-LetsGrow (s ∷ hashes) = record { at = λ w. go w (m w) refl }
    where
      m : M (Unit {0})
      m = transaction env (requeue_rows env (s ∷ hashes))

      go : (w : World) (r : Result (Unit {0}) × World) → m w ≡ r → Grows w.database (m w).1.database
      go w (ok u, w') e =
          let q = store_pool-ok (s ∷ hashes) w e in
          subst (λ (r : Result (Unit {0}) × World). Grows w.database r.1.database) (sym e)
            (record { same = q.same; kept = q.kept })
      go w (err x, w') e = Grows-refl _ _ (
          database-transaction env (requeue_rows env (s ∷ hashes)) w
            (subst (λ (r : Result (Unit {0}) × World). HasFailed r.0) (sym e) tt))
      go w (running, w') e = Grows-refl _ _ (
          database-transaction env (requeue_rows env (s ∷ hashes)) w
            (subst (λ (r : Result (Unit {0}) × World). HasFailed r.0) (sym e) tt))

  refresh_from_pool-LetsGrow : LetsGrow (refresh_from_pool env)
  unfolding refresh_from_pool
  refresh_from_pool-LetsGrow =
      LetsGrow-bind (call (λ n. env.rpc.get_transaction_pool_hashes n)) _
        (record { at = λ w. Grows-refl _ _ refl }) store_pool-LetsGrow

  on_event-LetsGrow : (event : Event) → LetsGrow (on_event env event)
  unfolding on_event logged
  on_event-LetsGrow (received frames) = record {
    at = λ w. elim (Bool-cases (is_watched (topic_of frames))) [
      | inl e ↦ rw e (refresh_from_pool-LetsGrow.at w)
      | inr e ↦ rw e (Grows-refl w.database w.database refl)
    ];
  }
  on_event-LetsGrow timed_out = record { at = λ w. refresh_from_pool-LetsGrow.at w }
  on_event-LetsGrow failed = record { at = λ w. Grows-refl _ _ refl }

  watch-LetsGrow : (events : List Event) → LetsGrow (watch env events)
  unfolding watch
  watch-LetsGrow [] = record { at = λ w. Grows-refl _ _ refl }
  watch-LetsGrow (event ∷ events) =
      LetsGrow-bind (on_event env event) _ (on_event-LetsGrow event) (λ _. watch-LetsGrow events)

  -- Whatever arrives, whatever the daemon answers and whichever statements fail, the watcher removes
  -- no transaction from the mempool and changes no other table.
  pub run-Grows : (events : List Event) (w : World) → Grows w.database (run env events w).1.database
  unfolding run logged
  run-Grows events w =
      (LetsGrow-bind (logged (refresh_from_pool env)) (λ _. watch env events)
          (record { at = λ w. refresh_from_pool-LetsGrow.at w }) (λ _. watch-LetsGrow events)).at
        w
