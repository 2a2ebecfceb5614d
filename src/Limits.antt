-- ===== src/Limits.antt =====
-- ingestor/src/limits.rs: the request quota and the concurrency of the two modes.
use block_ex.Prelude.{
  ℕ, ◌+◌, ◌*◌, ◌%◌, ◌^◌, ◌≤◌, ◌<◌, ◌≡◌, max, Bool, true, false, arith, if◌then◌else◌,
}

-- Single precision floats, which the quota goes through.
pub record Floats : Type 1 where
  pub F32 : Type 0
  pub of_u32 : ℕ → F32
  pub two_and_a_half : F32
  pub times : F32 → F32 → F32
  pub ceil : F32 → F32
  pub to_u32 : F32 → ℕ

-- The requests per second that `make_limiter` gives to the rate limiter.
unfoldable pub make_limiter : Floats → ℕ → Bool → ℕ
make_limiter fl rps bootstrap =
    let eff =
      if bootstrap then fl.to_u32 (fl.ceil (fl.times (fl.of_u32 rps) fl.two_and_a_half)) else rps in
    max eff 1

abbrev pub usize_mod : ℕ
usize_mod = 2 ^ 64

unfoldable pub eff_concurrency : ℕ → Bool → ℕ
eff_concurrency base bootstrap =
    if bootstrap then max (base * 2 % usize_mod) ((base + 4) % usize_mod) else base

-- For a base below 2 ^ 62, bootstrap mode gives at least four more than the base and at least its
-- double, and at most its double and four; the other mode keeps the base.
pub eff_concurrency_bounds :
    (base : ℕ)
    → base < 2 ^ 62
    → (eff_concurrency base false ≡ base)
      × (base + 4 ≤ eff_concurrency base true)
      × (base * 2 ≤ eff_concurrency base true)
      × (eff_concurrency base true ≤ base * 2 + 4)
unfolding eff_concurrency
eff_concurrency_bounds base h = (omega arith, omega arith, omega arith, omega arith)
