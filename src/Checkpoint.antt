-- ===== src/Checkpoint.antt =====
-- ingestor/src/checkpoint.rs: the progress that a restart goes on from.
use block_ex.Prelude.{◌≡◌, Option, none, some, arith}
use block_ex.Prelude.Int.{ℤ, pos}
use block_ex.Result.{ok}
use block_ex.Db.{Db, CheckpointRow}
use block_ex.World.{Env, World, M, query, execute, pure, ◌>>=◌, ◌>>◌}

pub record CheckpointState : Type 0 where
  pub ingested_height : ℤ
  pub finalized_height : ℤ

unfoldable pub state_of : Option CheckpointRow → CheckpointState
state_of none = record { ingested_height = pos 0; finalized_height = pos 0 }
state_of (some rec) = record {
  ingested_height = rec.last_height;
  finalized_height = rec.finalized_height;
}

-- The column finalized_height has the default 0.
unfoldable pub set_last_height : ℤ → Db → Db
set_last_height ingested_height d = record d {
  ingestor_checkpoint = elim d.ingestor_checkpoint [
    | none ↦ some (record { last_height = ingested_height; finalized_height = pos 0 })
    | some rec ↦ some (record rec { last_height = ingested_height })
  ];
}

unfoldable pub set_finalized_height : ℤ → Db → Db
set_finalized_height finalized_height d = record d {
  ingestor_checkpoint = elim d.ingestor_checkpoint [
    | none ↦ none
    | some rec ↦ some (record rec { finalized_height = finalized_height })
  ];
}

module _ (env : Env) where
  unfoldable pub get_state : M CheckpointState
  unfolding state_of
  get_state = do rec ← query env (λ d. d.ingestor_checkpoint); pure (state_of rec)

  unfoldable pub get : M ℤ
  unfolding get_state
  get = do state ← get_state; pure state.ingested_height

  -- Two statements, with no transaction around them.
  unfoldable pub set : ℤ → ℤ → M (Unit {0})
  unfolding set_last_height set_finalized_height
  set ingested_height finalized_height = do
    execute env (set_last_height ingested_height)
    execute env (set_finalized_height finalized_height)

  -- A `set` that succeeds is what the next `get_state` that succeeds returns, whatever was stored
  -- before it.
  pub get_state-set :
      (ingested finalized : ℤ) (w : World) {s : CheckpointState}
      → (set ingested finalized w).0 ≡ ok tt
      → (get_state (set ingested finalized w).1).0 ≡ ok s
      → s ≡ record { ingested_height = ingested; finalized_height = finalized }
  unfolding set get_state execute query
  get_state-set ingested finalized w h g = ground arith
