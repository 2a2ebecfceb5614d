-- ===== src/World/Causes.antt =====
-- Rules for the parts of a `do` block: what an error that it fails with says of the environment, and of
-- the database that the block has met.
use mathlib.Core.Path.{subst}
use block_ex.Prelude.{ℕ, ◌+◌, ◌≡◌, ◌⊎◌, inl, refl, Bool, true, false, Option, none, some, String}
use block_ex.Result.{Error, Result, ok, err, running, ok_or, db, rpc}
use block_ex.Db.{Db}
use block_ex.World.{
  Env, World, M, continue, query, execute, attempt, transaction, finish, call, lift, ◌>>=◌,
}
use block_ex.World.Rules.{ReadsOnly}
use block_ex.World.Errors.{FailsIn, FailsBy}

-- An error of the database has a statement that fails, or a text that the database cannot decode.
abbrev pub DbCause : Env → Type 0
DbCause env = ((n : ℕ) × (env.faults n ≡ true)) ⊎ ((s : String) × (env.decode s ≡ none))

-- If it fails, then with an error that fits the database that it has met.
pub record FailsOn {ℓ} {A : Type ℓ} (P : Db → Error → Type 0) (m : M A) : Type ℓ where
  pub at : (w : World) → FailsIn (P w.database) (m w).0

module _ {P : Db → Error → Type 0} where
  pub FailsOn-bind {ℓ} :
      {A B : Type ℓ} (m : M A) (f : A → M B)
      → ReadsOnly m
      → FailsOn P m
      → ((a : A) → FailsOn P (f a))
      → FailsOn P (m >>= f)
  FailsOn-bind {A} m f reads km kf = record {
    at = λ w. go w (m w).0 (m w).1 (reads.at w) (km.at w);
  }
    where
      go :
          (w : World) (r : Result A) (w' : World)
          → w'.database ≡ w.database
          → FailsIn (P w.database) r
          → FailsIn (P w.database) (continue r f w').0
      go w (ok a) w' same h = subst (λ d. FailsIn (P d) (f a w').0) same ((kf a).at w')
      go w (err e) w' same h = h
      go w running w' same h = tt

  pub FailsOn-FailsBy {ℓ} : {A : Type ℓ} (m : M A) → ((d : Db) → FailsBy (P d) m) → FailsOn P m
  FailsOn-FailsBy m h = record { at = λ w. (h w.database).at w }

module _ {P : Error → Type 0} where
  pub call-FailsBy {ℓ} :
      {A : Type ℓ} (f : ℕ → Option A) → ((n : ℕ) → f n ≡ none → P rpc) → FailsBy P (call f)
  call-FailsBy {A} f p = record { at = λ w. go w.calls (f w.calls) refl }
    where
      go : (n : ℕ) (o : Option A) → f n ≡ o → FailsIn P (ok_or rpc o)
      go n none e = p n e
      go n (some a) e = tt

  pub ok_or-FailsBy {ℓ} :
      {A : Type ℓ} (e : Error) (o : Option A) → (o ≡ none → P e) → FailsBy P (lift (ok_or e o))
  ok_or-FailsBy e none p = record { at = λ w. p refl }
  ok_or-FailsBy e (some a) p = record { at = λ w. tt }

  module _ (env : Env) (p : DbCause env → P db) where
    pub query-FailsBy {ℓ} : {A : Type ℓ} (f : Db → A) → FailsBy P (query env f)
    unfolding query
    query-FailsBy f = record { at = λ w. go w (env.faults w.statements) refl }
      where
        go : (w : World) (t : Bool) → env.faults w.statements ≡ t → FailsIn P (query env f w).0
        go w true e = rw e (p (inl (w.statements, e)))
        go w false e = rw e tt

    pub execute-FailsBy : (f : Db → Db) → FailsBy P (execute env f)
    unfolding execute
    execute-FailsBy f = record { at = λ w. go w (env.faults w.statements) refl }
      where
        go : (w : World) (t : Bool) → env.faults w.statements ≡ t → FailsIn P (execute env f w).0
        go w true e = rw e (p (inl (w.statements, e)))
        go w false e = rw e tt

    pub attempt-FailsBy :
        (f : Db → Result Db) → ((d : Db) → FailsIn P (f d)) → FailsBy P (attempt env f)
    unfolding attempt
    attempt-FailsBy f h = record {
      at = λ w. go w (env.faults w.statements) refl (f w.database) refl (h w.database);
    }
      where
        go :
            (w : World)
            → (t : Bool) → env.faults w.statements ≡ t
            → (r : Result Db) → f w.database ≡ r
            → FailsIn P (f w.database)
            → FailsIn P (attempt env f w).0
        go w true e r q k = rw e (p (inl (w.statements, e)))
        go w false e (ok d) q k = rw (e, q) tt
        go w false e (err x) q k = rw (e, q) (rw q at k)
        go w false e running q k = rw (e, q) tt

    pub transaction-FailsBy {ℓ} :
        {A : Type ℓ} (m : M A) → FailsBy P m → FailsBy P (transaction env m)
    unfolding transaction execute
    transaction-FailsBy {A} m h = record { at = λ w. go w (env.faults w.statements) refl }
      where
        ends : (w : World) (x : Result A × World) → FailsIn P x.0 → FailsIn P (finish env w x).0
        ends w (ok a, w') k = commits (env.faults w'.statements) refl
          where
            commits :
                (t : Bool) → env.faults w'.statements ≡ t → FailsIn P (finish env w (ok a, w')).0
            commits true e = rw e (p (inl (w'.statements, e)))
            commits false e = rw e tt
        ends w (err e, w') k = k
        ends w (running, w') k = tt

        go :
            (w : World) (t : Bool) → env.faults w.statements ≡ t → FailsIn P (transaction env m w).0
        go w true e = rw e (p (inl (w.statements, e)))
        go w false e = rw e (
            ends (record w { statements = w.statements + 1 })
              (m (record w { statements = w.statements + 1 }))
              (h.at (record w { statements = w.statements + 1 })))
