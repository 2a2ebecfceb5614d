-- ===== src/World/Errors.antt =====
-- Rules for the parts of a `do` block: with which errors it fails.
use block_ex.Prelude.{ℕ, ◌+◌, inl, inr, Bool-cases, Option, none, some, arith}
use block_ex.Result.{Error, Result, ok, err, running, ok_or, db, rpc}
use block_ex.Db.{Db}
use block_ex.World.{
  Env, World, M, continue, query, execute, attempt, transaction, call, pure, lift, raise, ◌>>=◌,
}

-- If the result is an error, then one of these.
abbrev pub FailsIn {ℓ} : {A : Type ℓ} → (Error → Type 0) → Result A → Type 0
FailsIn P (ok a) = Unit
FailsIn P (err e) = P e
FailsIn P running = Unit

pub record FailsBy {ℓ} {A : Type ℓ} (P : Error → Type 0) (m : M A) : Type ℓ where
  pub at : (w : World) → FailsIn P (m w).0

module _ {P : Error → Type 0} where
  pub FailsBy-bind {ℓ} :
      {A B : Type ℓ} (m : M A) (f : A → M B)
      → FailsBy P m
      → ((a : A) → FailsBy P (f a))
      → FailsBy P (m >>= f)
  FailsBy-bind {A} m f km kf = record { at = λ w. go (m w).0 (m w).1 (km.at w) }
    where
      go : (r : Result A) (w' : World) → FailsIn P r → FailsIn P (continue r f w').0
      go (ok a) w' h = (kf a).at w'
      go (err e) w' h = h
      go running w' h = tt

  module _ {ℓ} {A : Type ℓ} where
    pub FailsBy-pure : (a : A) → FailsBy P (pure a)
    FailsBy-pure a = record { at = λ w. tt }

    pub FailsBy-raise : (e : Error) → P e → FailsBy P (raise {A = A} e)
    FailsBy-raise e p = record { at = λ w. p }

    pub FailsBy-ok_or : (e : Error) (o : Option A) → P e → FailsBy P (lift (ok_or e o))
    FailsBy-ok_or e none p = record { at = λ w. p }
    FailsBy-ok_or e (some a) p = record { at = λ w. tt }

    pub FailsBy-call : (f : ℕ → Option A) → P rpc → FailsBy P (call f)
    FailsBy-call f p = record { at = λ w. go (f w.calls) }
      where
        go : (o : Option A) → FailsIn P (ok_or rpc o)
        go none = p
        go (some a) = tt

    module _ (env : Env) where
      pub FailsBy-query : (f : Db → A) → P db → FailsBy P (query env f)
      unfolding query
      FailsBy-query f p = record {
        at = λ w. elim (Bool-cases (env.faults w.statements)) [ inl e ↦ rw e p | inr e ↦ rw e tt ];
      }

      pub FailsBy-transaction : (m : M A) → P db → FailsBy P m → FailsBy P (transaction env m)
      unfolding transaction
      FailsBy-transaction m p h = record {
        at = λ w. ground (arith, h.at (record w { statements = w.statements + 1 }));
      }

  module _ (env : Env) where
    pub FailsBy-execute : (f : Db → Db) → P db → FailsBy P (execute env f)
    unfolding execute
    FailsBy-execute f p = record {
      at = λ w. elim (Bool-cases (env.faults w.statements)) [ inl e ↦ rw e p | inr e ↦ rw e tt ];
    }

    pub FailsBy-attempt :
        (f : Db → Result Db) → P db → ((d : Db) → FailsIn P (f d)) → FailsBy P (attempt env f)
    unfolding attempt
    FailsBy-attempt f p h = record { at = λ w. ground (arith, h w.database) }

pub ruleset failing = (
  FailsBy-bind, FailsBy-pure, FailsBy-raise, FailsBy-ok_or, FailsBy-call, FailsBy-query,
  FailsBy-transaction, FailsBy-execute, FailsBy-attempt,
)

pub FailsBy-weaken {ℓ} :
    {A : Type ℓ} {P Q : Error → Type 0} (m : M A)
    → ((e : Error) → P e → Q e)
    → FailsBy P m
    → FailsBy Q m
FailsBy-weaken {A} {P} {Q} m f h = record { at = λ w. go (m w).0 (h.at w) }
  where
    go : (r : Result A) → FailsIn P r → FailsIn Q r
    go (ok a) p = tt
    go (err e) p = f e p
    go running p = tt
