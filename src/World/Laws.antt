-- ===== src/World/Laws.antt =====
-- The laws of the effects: what a success tells of the parts of an action, and what a failure leaves.
use block_ex.Prelude.{◌+◌, ◌≡◌, refl, ap, arith}
use block_ex.Result.{Result, ok, err, running}
use block_ex.Db.{Db}
use block_ex.World.{Env, World, M, continue, query, execute, attempt, transaction, ◌>>=◌}

-- The outcome is not a success.
abbrev pub HasFailed {ℓ} : {A : Type ℓ} → Result A → Type 0
HasFailed (ok a) = ⊥
HasFailed (err e) = Unit
HasFailed running = Unit

-- Inversion of a bind that succeeds.
pub >>=-eq-ok {ℓ κ} :
    {A : Type ℓ} {B : Type κ} (m : M A) (f : A → M B) (w : World) {b : B} {w'' : World}
    → (m >>= f) w ≡ (ok b, w'')
    → (a : A) × (w' : World) × (m w ≡ (ok a, w')) × (f a w' ≡ (ok b, w''))
>>=-eq-ok {A} {B} m f w {b} {w''} h = go (m w) refl h
  where
    go :
        (r : Result A × World)
        → m w ≡ r
        → continue r.0 f r.1 ≡ (ok b, w'')
        → (a : A) × (w' : World) × (m w ≡ (ok a, w')) × (f a w' ≡ (ok b, w''))
    go (ok a, w') e p = (a, w', e, p)
    go (err x, w') e p = absurd (cc (ap (λ r. r.0) p))
    go (running, w') e p = absurd (cc (ap (λ r. r.0) p))

module _ (env : Env) where
  pub query-ok {ℓ} :
      {A : Type ℓ} (f : Db → A) (w : World) {a : A} {w' : World}
      → query env f w ≡ (ok a, w')
      → (f w.database ≡ a) × (w'.database ≡ w.database)
  unfolding query
  query-ok f w h = (ground arith, ground arith)

  pub execute-ok :
      (f : Db → Db) (w : World) {u : Unit {0}} {w' : World}
      → execute env f w ≡ (ok u, w')
      → w'.database ≡ f w.database
  unfolding execute
  execute-ok f w h = ground arith

  pub attempt-ok :
      (f : Db → Result Db) (w : World) {u : Unit {0}} {w' : World}
      → attempt env f w ≡ (ok u, w')
      → f w.database ≡ ok w'.database
  unfolding attempt
  attempt-ok f w h = ground arith

  -- A transaction that succeeds ran its body, and left what the body left.
  pub transaction-ok {ℓ} :
      {A : Type ℓ} (body : M A) (w : World) {a : A} {w' : World}
      → transaction env body w ≡ (ok a, w')
      → (w₀ w₁ : World) × (w₀.database ≡ w.database)
        × (body w₀ ≡ (ok a, w₁))
        × (w'.database ≡ w₁.database)
  unfolding transaction
  transaction-ok body w {a} {w'} h =
      let w₀ : World = record w { statements = w.statements + 1 } in
      (w₀, (body w₀).1, refl, ground arith, ground arith)

  pub database-query {ℓ} :
      {A : Type ℓ} (f : Db → A) (w : World) → (query env f w).1.database ≡ w.database
  unfolding query
  database-query f w = ground arith

  -- A transaction that does not succeed leaves the database as it found it.
  pub database-transaction {ℓ} :
      {A : Type ℓ} (body : M A) (w : World)
      → HasFailed (transaction env body w).0
      → (transaction env body w).1.database ≡ w.database
  unfolding transaction
  database-transaction body w h = ground arith
