-- ===== src/World.antt =====
-- The effects of the ingestor: calls of the daemon and statements on the database, each of which
-- may fail, and transactions, which leave the database as it was unless they commit.
pub mod Laws
pub mod Rules
pub mod Errors
pub mod Causes
use block_ex.Prelude.{ℕ, ◌+◌, Bool, true, false, Option, none, some, String, Bytes, if◌then◌else◌}
use block_ex.Result.{Error, Result, ok, err, running, ok_or, db, rpc}
use block_ex.External.{Hex}
use block_ex.Rpc.{MoneroRpc}
use block_ex.Db.{Db}

-- What surrounds the ingestor. `faults n` says that the n-th statement fails, `decode` and `encode`
-- are those of the database, and `hex` is the crate.
pub record Env : Type 0 where
  pub rpc : MoneroRpc
  pub hex : Hex
  pub decode : String → Option Bytes
  pub encode : Bytes → String
  pub faults : ℕ → Bool

pub record World : Type 0 where
  pub database : Db
  pub statements : ℕ
  pub calls : ℕ
  pub now : ℕ

abbrev pub M {ℓ} : Type ℓ → Type ℓ
M A = World → Result A × World

abbrev pub continue {ℓ κ} : {A : Type ℓ} {B : Type κ} → Result A → (A → M B) → M B
continue (ok a) f w = f a w
continue (err e) f w = (err e, w)
continue running f w = (running, w)

infixl 5 ◌>>=◌ ◌>>◌
abbrev pub ◌>>=◌ {ℓ κ} : {A : Type ℓ} {B : Type κ} → M A → (A → M B) → M B
◌>>=◌ m f w = continue (m w).0 f (m w).1

abbrev pub ◌>>◌ {ℓ κ} : {A : Type ℓ} {B : Type κ} → M A → M B → M B
m >> k = m >>= λ _. k

abbrev pub pure {ℓ} : {A : Type ℓ} → A → M A
pure a w = (ok a, w)

abbrev pub lift {ℓ} : {A : Type ℓ} → Result A → M A
lift r w = (r, w)

abbrev pub raise {ℓ} : {A : Type ℓ} → Error → M A
raise e w = (err e, w)

-- `NOW()`
abbrev pub at_now {ℓ} : {A : Type ℓ} → (ℕ → M A) → M A
at_now f w = f w.now w

-- A call of the daemon, which sees how many were made before it.
abbrev pub call {ℓ} : {A : Type ℓ} → (ℕ → Option A) → M A
call f w = (ok_or rpc (f w.calls), record w { calls = w.calls + 1 })

module _ (env : Env) where
  -- A statement that reads the database, or fails.
  unfoldable pub query {ℓ} : {A : Type ℓ} → (Db → A) → M A
  query f w =
      let w' = record w { statements = w.statements + 1 } in
      if env.faults w.statements then (err db, w') else (ok (f w.database), w')

  -- A statement that writes the database, or fails and does not.
  unfoldable pub execute : (Db → Db) → M (Unit {0})
  execute f w =
      if env.faults w.statements
      then (err db, record w { statements = w.statements + 1 })
      else (ok tt, record w { statements = w.statements + 1; database = f w.database })

  abbrev written : Result Db → World → Result (Unit {0}) × World
  written (ok d) w = (ok tt, record w { database = d })
  written (err e) w = (err e, w)
  written running w = (running, w)

  -- A statement that also fails by itself, as on a value that it cannot decode.
  unfoldable pub attempt : (Db → Result Db) → M (Unit {0})
  attempt f w =
      let w' = record w { statements = w.statements + 1 } in
      if env.faults w.statements then (err db, w') else written (f w.database) w'

  -- `begin`, the body, `commit`. A transaction that is dropped is rolled back.
  abbrev pub rollback : World → World → World
  rollback w w' = record w' { database = w.database }

  abbrev pub finish {ℓ} : {A : Type ℓ} → World → Result A × World → Result A × World
  finish w (err e, w') = (err e, rollback w w')
  finish w (running, w') = (running, rollback w w')
  finish w (ok a, w') =
      if env.faults w'.statements
      then (err db, record (rollback w w') { statements = w'.statements + 1 })
      else (ok a, record w' { statements = w'.statements + 1 })

  -- `begin` and its outcome are a statement too.
  unfoldable pub transaction {ℓ} : {A : Type ℓ} → M A → M A
  unfolding execute
  transaction body w =
      let (begun, w') = execute (λ d. d) w in continue begun (λ _ w''. finish w (body w'')) w'
