-- ===== src/Reorg/Outcome.antt =====
-- reorg.rs: the failures of `heal_reorg`.
use block_ex.Prelude.{ℕ, zero, suc, ◌+◌, ◌≡◌, ◌∙◌, Bool, true, false, Bytes, bytes_eq, refl}
use block_ex.Prelude.Int.{ℤ, pos, pos_part, ◌+ℤ◌, ◌-ℤ◌}
use block_ex.Prelude.Order.{leb_ℤ}
use block_ex.Result.{Result, ok, err, running}
use block_ex.World.{Env, World, M, transaction, at_now, attempt, ◌>>=◌}
use block_ex.World.Laws.{HasFailed, database-transaction}
use block_ex.World.Rules.{ReadsOnly, reading, ReadsOnly-bind}
use block_ex.Store.{block_hash_at}
use block_ex.Reorg.{db_hash_at, live_hash_at, compare_hashes, round, find_fork, unwind, heal_reorg}

module _ (env : Env) where
  pub db_hash_at-ReadsOnly : (h : ℤ) → ReadsOnly (db_hash_at env h)
  unfolding db_hash_at block_hash_at
  db_hash_at-ReadsOnly h = search reading

  pub live_hash_at-ReadsOnly : (h : ℤ) → ReadsOnly (live_hash_at env h)
  unfolding live_hash_at
  live_hash_at-ReadsOnly h = search reading

  compare_hashes-ReadsOnly :
      (again : ℤ → ℕ → Bytes → M ℤ) (h : ℤ) (steps : ℕ) (b live : Bytes)
      → ((h : ℤ) (steps : ℕ) (b : Bytes) → ReadsOnly (again h steps b))
      → ReadsOnly (compare_hashes env again h steps b live)
  unfolding compare_hashes
  compare_hashes-ReadsOnly again h steps b live k = go (bytes_eq live b) refl
    where
      go : (t : Bool) → bytes_eq live b ≡ t → ReadsOnly (compare_hashes env again h steps b live)
      go true e = rw (e, compare_hashes) (search reading)
      go false e =
          rw (e, compare_hashes)
            (ReadsOnly-bind _ _ (db_hash_at-ReadsOnly (h -ℤ pos 1))
              (λ below. k (h -ℤ pos 1) (steps + 1) below))

  round-ReadsOnly :
      (again : ℤ → ℕ → Bytes → M ℤ) (fw h : ℤ) (steps : ℕ) (b : Bytes)
      → ((h : ℤ) (steps : ℕ) (b : Bytes) → ReadsOnly (again h steps b))
      → ReadsOnly (round env again fw h steps b)
  unfolding round
  round-ReadsOnly again fw h steps b k = go (leb_ℤ (pos steps) fw) refl
    where
      go : (t : Bool) → leb_ℤ (pos steps) fw ≡ t → ReadsOnly (round env again fw h steps b)
      go false e = rw (e, round) (search reading)
      go true e =
          rw (e, round)
            (ReadsOnly-bind _ _ (live_hash_at-ReadsOnly h)
              (λ live. compare_hashes-ReadsOnly again h steps b live k))

  pub find_fork-ReadsOnly :
      (fuel : ℕ) (fw h : ℤ) (steps : ℕ) (b : Bytes) → ReadsOnly (find_fork env fuel fw h steps b)
  unfolding find_fork
  find_fork-ReadsOnly zero fw h steps b = search reading
  find_fork-ReadsOnly (suc fuel) fw h steps b =
      round-ReadsOnly (find_fork env fuel fw) fw h steps b (find_fork-ReadsOnly fuel fw)

  -- A failure is a failure to search, or of the transaction.
  database-bind_failed :
      {A : Type 0} (m : M A) (f : A → M (Unit {0})) (w : World)
      → ReadsOnly m
      → ((a : A) (w' : World) → HasFailed (f a w').0 → (f a w').1.database ≡ w'.database)
      → HasFailed ((m >>= f) w).0
      → ((m >>= f) w).1.database ≡ w.database
  database-bind_failed {A} m f w k kf h = go (m w).0 (m w).1 h ∙ k.at w
    where
      go :
          (r : Result A) (w' : World)
          → HasFailed (block_ex.World.continue r f w').0
          → (block_ex.World.continue r f w').1.database ≡ w'.database
      go (ok a) w' h = kf a w' h
      go (err e) w' h = refl
      go running w' h = refl

  -- A healing that does not succeed has changed nothing.
  pub database-heal_reorg :
      (start finality_window : ℤ) (w : World)
      → HasFailed (heal_reorg env start finality_window w).0
      → (heal_reorg env start finality_window w).1.database ≡ w.database
  unfolding heal_reorg
  database-heal_reorg start fw w =
      database-bind_failed (db_hash_at env (start -ℤ pos 1)) _ w
        (db_hash_at-ReadsOnly (start -ℤ pos 1))
        (λ b w₁.
          database-bind_failed (find_fork env (pos_part fw + 2) fw (start -ℤ pos 1) 0 b) _ w₁
            (find_fork-ReadsOnly (pos_part fw + 2) fw (start -ℤ pos 1) 0 b)
            (λ f w₂. database-transaction env (unwind env (f +ℤ pos 1) start) w₂))
