-- ===== src/World/Rules.antt =====
-- Rules for the parts of a `do` block: what only reads the database, and what ends.
use block_ex.Prelude.{
  ℕ, ◌+◌, ◌≡◌, refl, sym, ◌∙◌, Bool, true, false, inl, inr, Bool-cases, Option, arith,
}
use mathlib.Core.Path.{subst}
use block_ex.Result.{Error, Result, ok, err, running, ok_or}
use block_ex.Db.{Db}
use block_ex.World.{
  Env, World, M, continue, query, execute, attempt, transaction, call, pure, lift, raise, ◌>>=◌,
}

-- The action leaves the database alone, whether it succeeds or fails.
pub record ReadsOnly {ℓ} {A : Type ℓ} (m : M A) : Type ℓ where
  pub at : (w : World) → (m w).1.database ≡ w.database

-- The outcome is not that the fuel ran out.
abbrev pub HasEnded {ℓ} : {A : Type ℓ} → Result A → Type 0
HasEnded (ok a) = Unit
HasEnded (err e) = Unit
HasEnded running = ⊥

pub record Ends {ℓ} {A : Type ℓ} (m : M A) : Type ℓ where
  pub at : (w : World) → HasEnded (m w).0

module _ {ℓ} {A B : Type ℓ} where
  pub ReadsOnly-bind :
      (m : M A) (f : A → M B) → ReadsOnly m → ((a : A) → ReadsOnly (f a)) → ReadsOnly (m >>= f)
  ReadsOnly-bind m f km kf = record { at = λ w. go (m w).0 (m w).1 ∙ km.at w }
    where
      go : (r : Result A) (w' : World) → (continue r f w').1.database ≡ w'.database
      go (ok a) w' = (kf a).at w'
      go (err e) w' = refl
      go running w' = refl

  pub Ends-bind : (m : M A) (f : A → M B) → Ends m → ((a : A) → Ends (f a)) → Ends (m >>= f)
  Ends-bind m f km kf = record { at = λ w. go (m w).0 (m w).1 (km.at w) }
    where
      go : (r : Result A) (w' : World) → HasEnded r → HasEnded (continue r f w').0
      go (ok a) w' h = (kf a).at w'
      go (err e) w' h = tt
      go running w' h = h

module _ {ℓ} {A : Type ℓ} where
  pub ReadsOnly-pure : (a : A) → ReadsOnly (pure a)
  ReadsOnly-pure a = record { at = λ w. refl }

  pub ReadsOnly-lift : (r : Result A) → ReadsOnly (lift r)
  ReadsOnly-lift r = record { at = λ w. refl }

  pub ReadsOnly-raise : (e : Error) → ReadsOnly (raise {A = A} e)
  ReadsOnly-raise e = record { at = λ w. refl }

  pub ReadsOnly-call : (f : ℕ → Option A) → ReadsOnly (call f)
  ReadsOnly-call f = record { at = λ w. refl }

  pub Ends-pure : (a : A) → Ends (pure a)
  Ends-pure a = record { at = λ w. tt }

  pub Ends-raise : (e : Error) → Ends (raise {A = A} e)
  Ends-raise e = record { at = λ w. tt }

  pub Ends-ok_or : (e : Error) (o : Option A) → Ends (lift (ok_or e o))
  Ends-ok_or e o = record { at = λ w. ground arith }

  pub Ends-call : (f : ℕ → Option A) → Ends (call f)
  Ends-call f = record { at = λ w. ground arith }

  module _ (env : Env) where
    pub ReadsOnly-query : (f : Db → A) → ReadsOnly (query env f)
    unfolding query
    ReadsOnly-query f = record { at = λ w. ground arith }

    pub Ends-query : (f : Db → A) → Ends (query env f)
    unfolding query
    Ends-query f = record { at = λ w. ground arith }

    pub Ends-transaction : (m : M A) → Ends m → Ends (transaction env m)
    unfolding transaction
    Ends-transaction m h = record {
      at = λ w. ground (arith, h.at (record w { statements = w.statements + 1 }));
    }

module _ (env : Env) where
  pub Ends-execute : (f : Db → Db) → Ends (execute env f)
  unfolding execute
  Ends-execute f = record { at = λ w. ground arith }

  pub Ends-attempt : (f : Db → Result Db) → ((d : Db) → HasEnded (f d)) → Ends (attempt env f)
  unfolding attempt
  Ends-attempt f h = record { at = λ w. ground (arith, h w.database) }

-- The action keeps a property of the database, whether it succeeds or fails.
pub record Keeps {ℓ} {A : Type ℓ} (P : Db → Type 0) (m : M A) : Type ℓ where
  pub at : (w : World) → P w.database → P (m w).1.database

module _ {P : Db → Type 0} where
  pub Keeps-bind {ℓ} :
      {A B : Type ℓ} (m : M A) (f : A → M B)
      → Keeps P m
      → ((a : A) → Keeps P (f a))
      → Keeps P (m >>= f)
  Keeps-bind {A} m f km kf = record { at = λ w h. go (m w).0 (m w).1 (km.at w h) }
    where
      go : (r : Result A) (w' : World) → P w'.database → P (continue r f w').1.database
      go (ok a) w' h = (kf a).at w' h
      go (err e) w' h = h
      go running w' h = h

  pub Keeps-pure {ℓ} : {A : Type ℓ} (a : A) → Keeps P (pure a)
  Keeps-pure a = record { at = λ w h. h }

  pub Keeps-ReadsOnly {ℓ} : {A : Type ℓ} (m : M A) → ReadsOnly m → Keeps P m
  Keeps-ReadsOnly m k = record { at = λ w h. subst P (sym (k.at w)) h }

  module _ (env : Env) where
    pub Keeps-execute : (f : Db → Db) → ((d : Db) → P d → P (f d)) → Keeps P (execute env f)
    unfolding execute
    Keeps-execute f k = record {
      at = λ w h. elim (Bool-cases (env.faults w.statements)) [
        | inl e ↦ rw e h
        | inr e ↦ rw e (k w.database h)
      ];
    }

    pub Keeps-attempt :
        (f : Db → Result Db) → ((d d' : Db) → f d ≡ ok d' → P d → P d') → Keeps P (attempt env f)
    unfolding attempt
    Keeps-attempt f k = record {
      at = λ w h. at w h (env.faults w.statements) refl (f w.database) refl;
    }
      where
        at :
            (w : World)
            → P w.database
            → (t : Bool) → env.faults w.statements ≡ t
            → (r : Result Db) → f w.database ≡ r
            → P (attempt env f w).1.database
        at w h true e r q = rw e h
        at w h false e (ok d) q = rw (e, q) (k w.database d q h)
        at w h false e (err x) q = rw (e, q) h
        at w h false e running q = rw (e, q) h

pub ruleset reading = (
  ReadsOnly-bind, ReadsOnly-pure, ReadsOnly-lift, ReadsOnly-raise, ReadsOnly-call, ReadsOnly-query,
)

pub ruleset ending = (
  Ends-bind, Ends-pure, Ends-raise, Ends-ok_or, Ends-call, Ends-query, Ends-transaction,
  Ends-execute, Ends-attempt,
)
