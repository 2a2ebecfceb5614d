-- ===== src/Persist/Height.antt =====
-- work_persist.rs: the height of the row that is made from a header.
use block_ex.Prelude.{ℕ, ◌≡◌, refl, some, arith}
use block_ex.Prelude.Int.{ℤ, pos}
use block_ex.Prelude.Words.{i64_try_from, i32_try_from}
use block_ex.Result.{ok, ok_or, hex_decode, overflow}
use block_ex.Result.Ensures.{Ensures, of_ok, Ensures-bind, some_of}
use block_ex.Db.{BlockRow}
use block_ex.Rpc.{BlockHeader}
use block_ex.World.{Env}
use block_ex.Persist.{block_row}

block_row-Ensures :
    (env : Env) (header : BlockHeader) (n : ℕ)
    → Ensures
        (λ (b : BlockRow). i64_try_from header.height ≡ some b.height)
        (block_row env header n)
unfolding block_row
block_row-Ensures env header n =
    Ensures-bind _ (ok_or hex_decode (env.hex.decode header.hash)) _ λ hash _.
      Ensures-bind _ (ok_or hex_decode (env.hex.decode header.prev_hash)) _ λ prev _.
        Ensures-bind _ (ok_or overflow (i64_try_from header.timestamp)) _ λ ts _.
          Ensures-bind _ (ok_or overflow (i32_try_from header.major_version)) _ λ major _.
            Ensures-bind _ (ok_or overflow (i32_try_from header.minor_version)) _ λ minor _.
              Ensures-bind _ (ok_or overflow (i64_try_from header.nonce)) _ λ nonce _.
                Ensures-bind _ (ok_or overflow (i64_try_from header.reward)) _ λ reward _.
                  Ensures-bind _ (ok_or overflow (i64_try_from header.height)) _
                    λ height h. of_ok _ _ _ refl (some_of overflow _ _ h)

pos_of : (n : ℕ) (h : ℤ) → i64_try_from n ≡ some h → h ≡ pos n
unfolding i64_try_from
pos_of n h e = ground arith

-- A row that is made from a header has the header's height.
pub block_row-height :
    (env : Env) (header : BlockHeader) (n : ℕ) {b : BlockRow}
    → block_row env header n ≡ ok b
    → b.height ≡ pos header.height
block_row-height env header n {b} e =
    pos_of header.height b.height ((block_row-Ensures env header n).of b e)
