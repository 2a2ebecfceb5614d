-- ===== src/Reorg/Termination.antt =====
-- reorg.rs: the end of the search loop of `heal_reorg`.
use block_ex.Prelude.{
  ℕ, zero, suc, ◌+◌, ◌≤◌, ◌≡◌, refl, Bool, true, false, String, List, [], ◌∷◌, Bytes, bytes_eq,
  arith,
}
use block_ex.Prelude.Int.{ℤ, pos, pos_part, ◌+ℤ◌, ◌-ℤ◌, ◌≤ℤ◌}
use block_ex.Prelude.Order.{leb_ℤ, leb_ℤ_iff}
use block_ex.Db.{Db}
use block_ex.World.{Env, World, M, at_now, attempt}
use block_ex.World.Rules.{Ends, HasEnded, ending, Ends-bind, Ends-raise, Ends-pure, Ends-attempt}
use block_ex.Store.{
  block_hash_at, requeue_mempool_from_block, requeue_rows, with_decoded, see_mempool,
}
use block_ex.Reorg.{
  db_hash_at, live_hash_at, compare_hashes, round, find_fork, requeue_range, unwind, heal_reorg,
}

module _ (env : Env) where
  db_hash_at-Ends : (h : ℤ) → Ends (db_hash_at env h)
  unfolding db_hash_at block_hash_at
  db_hash_at-Ends h = search ending

  live_hash_at-Ends : (h : ℤ) → Ends (live_hash_at env h)
  unfolding live_hash_at
  live_hash_at-Ends h = search ending

  compare_hashes-Ends :
      (again : ℤ → ℕ → Bytes → M ℤ) (h : ℤ) (steps : ℕ) (b live : Bytes)
      → ((b : Bytes) → Ends (again (h -ℤ pos 1) (steps + 1) b))
      → Ends (compare_hashes env again h steps b live)
  unfolding compare_hashes
  compare_hashes-Ends again h steps b live k = go (bytes_eq live b) refl
    where
      go : (t : Bool) → bytes_eq live b ≡ t → Ends (compare_hashes env again h steps b live)
      go true e = rw (e, compare_hashes) (Ends-pure h)
      go false e =
          rw (e, compare_hashes) (Ends-bind _ _ (db_hash_at-Ends (h -ℤ pos 1)) (λ below. k below))

  round-Ends :
      (again : ℤ → ℕ → Bytes → M ℤ) (fw h : ℤ) (steps : ℕ) (b : Bytes)
      → (pos steps ≤ℤ fw → (b : Bytes) → Ends (again (h -ℤ pos 1) (steps + 1) b))
      → Ends (round env again fw h steps b)
  unfolding round
  round-Ends again fw h steps b k = go (leb_ℤ (pos steps) fw) refl
    where
      go : (t : Bool) → leb_ℤ (pos steps) fw ≡ t → Ends (round env again fw h steps b)
      go false e = rw (e, round) (Ends-raise _)
      go true e =
          rw (e, round)
            (Ends-bind _ _ (live_hash_at-Ends h) (λ live.
              compare_hashes-Ends again h steps b live (k ((leb_ℤ_iff (pos steps) fw).0 e))))

  -- The fuel that is left covers the steps that the window has left.
  find_fork-Ends :
      (fuel : ℕ) (fw h : ℤ) (steps : ℕ) (b : Bytes)
      → 1 ≤ fuel
      → pos_part fw + 2 ≤ steps + fuel
      → Ends (find_fork env fuel fw h steps b)
  unfolding find_fork
  find_fork-Ends zero fw h steps b some_fuel enough = absurd (omega arith)
  find_fork-Ends (suc fuel) fw h steps b some_fuel enough =
      round-Ends (find_fork env fuel fw) fw h steps b
        (λ fits b. find_fork-Ends fuel fw (h -ℤ pos 1) (steps + 1) b (fuel_left fits) (omega arith))
    where
      fuel_left : pos steps ≤ℤ fw → 1 ≤ fuel
      fuel_left fits = ground arith

  HasEnded-with_decoded :
      (s : String) (f : Bytes → Db → Db) (d : Db) → HasEnded (with_decoded env s f d)
  unfolding with_decoded
  HasEnded-with_decoded s f d = ground arith

  requeue_rows-Ends : (rows : List String) → Ends (requeue_rows env rows)
  unfolding requeue_rows
  requeue_rows-Ends [] = Ends-pure tt
  requeue_rows-Ends (s ∷ rows) =
      Ends-bind (at_now (λ now. attempt env (with_decoded env s (see_mempool now)))) _
        (record {
          at = λ w.
              (Ends-attempt env (with_decoded env s (see_mempool w.now))
                  (HasEnded-with_decoded s (see_mempool w.now))).at
                w;
        })
        (λ _. requeue_rows-Ends rows)

  requeue_mempool_from_block-Ends : (h : ℤ) → Ends (requeue_mempool_from_block env h)
  unfolding requeue_mempool_from_block
  requeue_mempool_from_block-Ends h = search (ending, requeue_rows-Ends)

  requeue_range-Ends : (n : ℕ) (lo : ℤ) → Ends (requeue_range env n lo)
  unfolding requeue_range
  requeue_range-Ends zero lo = Ends-pure tt
  requeue_range-Ends (suc n) lo =
      Ends-bind _ _ (requeue_mempool_from_block-Ends lo) (λ _. requeue_range-Ends n (lo +ℤ pos 1))

  unwind-Ends : (fork start : ℤ) → Ends (unwind env fork start)
  unfolding unwind
  unwind-Ends fork start = search (ending, requeue_range-Ends)

  heal_reorg-Ends : (start finality_window : ℤ) → Ends (heal_reorg env start finality_window)
  unfolding heal_reorg
  heal_reorg-Ends start fw = Ends-bind _ _ (db_hash_at-Ends (start -ℤ pos 1)) λ b.
      Ends-bind _ _
        (find_fork-Ends (pos_part fw + 2) fw (start -ℤ pos 1) 0 b (omega arith) (omega arith))
        λ f. search (ending, unwind-Ends)

  -- Whatever the daemon answers and whichever statements fail, a healing ends, with success or an
  -- error.
  pub heal_reorg_total :
      (start finality_window : ℤ) (w : World) → HasEnded (heal_reorg env start finality_window w).0
  heal_reorg_total start fw w = (heal_reorg-Ends start fw).at w
