-- ===== src/Reorg/Errors.antt =====
-- reorg.rs: the errors of `heal_reorg`.
use block_ex.Prelude.{
  ℕ, zero, suc, ◌+◌, ◌≡◌, refl, Bool, true, false, List, [], ◌∷◌, String, Bytes, bytes_eq, arith,
}
use block_ex.Prelude.Int.{ℤ, pos, pos_part, ◌+ℤ◌, ◌-ℤ◌}
use block_ex.Prelude.Order.{leb_ℤ}
use block_ex.Result.{Error, db, rpc, hex_decode, no_db_block, reorg_exceeds}
use block_ex.Db.{Db}
use block_ex.World.{Env, M, at_now, attempt}
use block_ex.World.Errors.{
  FailsIn, FailsBy, failing, FailsBy-bind, FailsBy-pure, FailsBy-raise, FailsBy-attempt,
}
use block_ex.Store.{
  block_hash_at, requeue_mempool_from_block, requeue_rows, with_decoded, see_mempool,
}
use block_ex.Reorg.{
  db_hash_at, live_hash_at, compare_hashes, round, find_fork, requeue_range, unwind, heal_reorg,
}

-- The database or the daemon fails, a hash is no hexadecimal text, a block is missing, or the window
-- that is given does not reach the shared block.
abbrev pub IsHealError : ℤ → Error → Type 0
IsHealError fw db = Unit
IsHealError fw rpc = Unit
IsHealError fw hex_decode = Unit
IsHealError fw (no_db_block h) = Unit
IsHealError fw (reorg_exceeds window steps) = (window ≡ fw) × (leb_ℤ steps fw ≡ false)
IsHealError fw _ = ⊥

module _ (env : Env) (fw : ℤ) where
  db_hash_at-FailsBy : (h : ℤ) → FailsBy (IsHealError fw) (db_hash_at env h)
  unfolding db_hash_at block_hash_at
  db_hash_at-FailsBy h = search failing

  live_hash_at-FailsBy : (h : ℤ) → FailsBy (IsHealError fw) (live_hash_at env h)
  unfolding live_hash_at
  live_hash_at-FailsBy h = search failing

  module _ (again : ℤ → ℕ → Bytes → M ℤ)
      (later : (h : ℤ) (steps : ℕ) (b : Bytes) → FailsBy (IsHealError fw) (again h steps b)) where
    compare_hashes-FailsBy :
        (h : ℤ) (steps : ℕ) (b live : Bytes) (t : Bool)
        → bytes_eq live b ≡ t
        → FailsBy (IsHealError fw) (compare_hashes env again h steps b live)
    unfolding compare_hashes
    compare_hashes-FailsBy h steps b live true e = rw (e, compare_hashes) (FailsBy-pure h)
    compare_hashes-FailsBy h steps b live false e =
        rw (e, compare_hashes)
          (FailsBy-bind _ _ (db_hash_at-FailsBy (h -ℤ pos 1)) λ below. later _ _ below)

    round-FailsBy :
        (h : ℤ) (steps : ℕ) (b : Bytes) (t : Bool)
        → leb_ℤ (pos steps) fw ≡ t
        → FailsBy (IsHealError fw) (round env again fw h steps b)
    unfolding round
    round-FailsBy h steps b false e = rw (e, round) (FailsBy-raise _ (refl, e))
    round-FailsBy h steps b true e =
        rw (e, round)
          (FailsBy-bind _ _ (live_hash_at-FailsBy h)
            λ live. compare_hashes-FailsBy h steps b live (bytes_eq live b) refl)

  find_fork-FailsBy :
      (fuel : ℕ) (h : ℤ) (steps : ℕ) (b : Bytes)
      → FailsBy (IsHealError fw) (find_fork env fuel fw h steps b)
  unfolding find_fork
  find_fork-FailsBy zero h steps b = record { at = λ w. tt }
  find_fork-FailsBy (suc fuel) h steps b =
      round-FailsBy (find_fork env fuel fw) (λ h steps b. find_fork-FailsBy fuel h steps b) h steps
        b (leb_ℤ (pos steps) fw) refl

  with_decoded-FailsIn :
      (s : String) (f : Bytes → Db → Db) (d : Db)
      → FailsIn (IsHealError fw) (with_decoded env s f d)
  unfolding with_decoded
  with_decoded-FailsIn s f d = ground arith

  requeue_rows-FailsBy : (rows : List String) → FailsBy (IsHealError fw) (requeue_rows env rows)
  unfolding requeue_rows
  requeue_rows-FailsBy [] = FailsBy-pure tt
  requeue_rows-FailsBy (s ∷ rows) =
      FailsBy-bind (at_now (λ now. attempt env (with_decoded env s (see_mempool now)))) _
        (record {
          at = λ w.
              (FailsBy-attempt env (with_decoded env s (see_mempool w.now)) tt
                  (with_decoded-FailsIn s (see_mempool w.now))).at
                w;
        })
        (λ _. requeue_rows-FailsBy rows)

  requeue_range-FailsBy : (n : ℕ) (lo : ℤ) → FailsBy (IsHealError fw) (requeue_range env n lo)
  unfolding requeue_range requeue_mempool_from_block
  requeue_range-FailsBy zero lo = FailsBy-pure tt
  requeue_range-FailsBy (suc n) lo =
      FailsBy-bind (requeue_mempool_from_block env lo) _ (search (failing, requeue_rows-FailsBy))
        (λ _. requeue_range-FailsBy n (lo +ℤ pos 1))

  unwind-FailsBy : (fork start : ℤ) → FailsBy (IsHealError fw) (unwind env fork start)
  unfolding unwind
  unwind-FailsBy fork start = search (failing, requeue_range-FailsBy)

  -- A healing fails only because the database or the daemon fails, a text is no hexadecimal hash, a
  -- block is missing from the database, or the search has made more steps than the window that it was
  -- given, which the error then names.
  pub heal_reorg-FailsBy : (start : ℤ) → FailsBy (IsHealError fw) (heal_reorg env start fw)
  unfolding heal_reorg
  heal_reorg-FailsBy start = FailsBy-bind _ _ (db_hash_at-FailsBy (start -ℤ pos 1)) λ b.
      FailsBy-bind _ _ (find_fork-FailsBy (pos_part fw + 2) (start -ℤ pos 1) 0 b)
        λ f. search (failing, unwind-FailsBy)
