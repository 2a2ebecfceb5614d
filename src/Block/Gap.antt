-- ===== src/Block/Gap.antt =====
-- How work_block.rs goes on after reorg.rs has removed blocks.
use block_ex.Prelude.{ℕ, ◌≡◌, refl, ap, ◌∙◌, false, none, some, Bytes, arith, if◌then◌else◌}
use block_ex.Prelude.Int.{ℤ, pos, ◌+ℤ◌, ◌-ℤ◌, ◌≤ℤ◌}
use block_ex.Prelude.Order.{leb_ℤ}
use block_ex.Prelude.Words.{as_i64}
use block_ex.Result.{ok}
use block_ex.Rpc.{BlockHeader}
use block_ex.World.{Env, World, query}
use block_ex.Store.{hash_at, block_hash_at}
use block_ex.Reorg.{heal_reorg}
use block_ex.Reorg.Fork.{IsFork}
use block_ex.Reorg.Heal.{heal_reorg-Unwound}
use block_ex.Block.{check_stored, check_prev}

check_prev-none :
    (env : Env) (n : ℕ) (header : BlockHeader) (w : World)
    → hash_at (as_i64 header.height -ℤ pos 1) w.database ≡ none
    → env.faults w.statements ≡ false
    → (check_prev env n header w).0 ≡ ok tt
unfolding check_prev block_hash_at query check_stored
check_prev-none env n header w h clear = rw (clear, h) refl

above : (f start : ℤ) → f +ℤ pos 2 ≤ℤ start → leb_ℤ (start -ℤ pos 1) f ≡ false
unfolding ◌+ℤ◌ ◌-ℤ◌
above f start h = ground arith

-- Where the database decodes what it encodes, and the next statement does not fail: when a healing
-- that starts at the height of a header succeeds, and the shared block lies two heights or more below
-- the header, then no block is stored just below the header, and the check of the header passes.
pub heal_reorg-check_prev :
    (env : Env) (inverse : (b : Bytes) → env.decode (env.encode b) ≡ some b) (n : ℕ) (fw : ℤ)
    → (header : BlockHeader) (w : World) {u : Unit {0}} {w' : World}
    → heal_reorg env (as_i64 header.height) fw w ≡ (ok u, w')
    → env.faults w'.statements ≡ false
    → (f : ℤ) × IsFork env w.database fw 0 (as_i64 header.height -ℤ pos 1) f
      × (f +ℤ pos 2 ≤ℤ as_i64 header.height
          → (hash_at (as_i64 header.height -ℤ pos 1) w'.database ≡ none)
            × ((check_prev env n header w').0 ≡ ok tt))
heal_reorg-check_prev env inverse n fw header w {u} {w'} h clear =
    let (f, fork, unwound) = heal_reorg-Unwound env inverse (as_i64 header.height) fw w h in
    let k = as_i64 header.height -ℤ pos 1 in
    (
      f,
      fork,
      λ deep.
          let gone : hash_at k w'.database ≡ none =
            unwound.hashes k
            ∙ ap (λ t. if t then hash_at k w.database else none)
                (above f (as_i64 header.height) deep) in
          (gone, check_prev-none env n header w' gone clear),
    )
