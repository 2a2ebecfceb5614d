-- ===== src/Prelude/Words.antt =====
-- The casts between the machine integers of the source: u64 as a number, i64 as an integer.
use block_ex.Prelude.Tests.{ltb, if◌then◌else◌}
use block_ex.Prelude.Int.{ℤ, pos, negsuc}
use Prim.Native.Nat.{ℕ, ◌-◌, ◌%◌, ◌^◌}
use mathlib.Core.Option.{Option, none, some}

abbrev pub u64_mod : ℕ
u64_mod = 2 ^ 64

abbrev pub i64_mod : ℕ
i64_mod = 2 ^ 63

-- `h as u64` of an i64.
unfoldable pub as_u64 : ℤ → ℕ
as_u64 (pos n) = n % u64_mod
as_u64 (negsuc n) = u64_mod - (n % u64_mod) - 1

-- `n as i64` of a u64.
unfoldable pub as_i64 : ℕ → ℤ
as_i64 n = if ltb n i64_mod then pos n else negsuc (u64_mod - n - 1)

-- `i64::try_from(n)` of a u64.
unfoldable pub i64_try_from : ℕ → Option ℤ
i64_try_from n = if ltb n i64_mod then some (pos n) else none

-- `u64::try_from(h)` of an i64.
unfoldable pub u64_try_from : ℤ → Option ℕ
u64_try_from (pos n) = some n
u64_try_from (negsuc n) = none

-- `i32::try_from(n)` of an unsigned number.
unfoldable pub i32_try_from : ℕ → Option ℕ
i32_try_from n = if ltb n (2 ^ 31) then some n else none
