-- ===== src/Header.antt =====
-- ingestor/src/work_block.rs, `HeaderFetcher`: headers by ranges, kept until they are asked for,
-- with a fall back to single requests.
pub mod Ranges
pub mod Sources
use block_ex.Prelude.{
  ℕ, ◌+◌, ◌-◌, ◌^◌, ◌==◌, min, max, Bool, true, false, Option, none, some, List, [], ◌∷◌, ltb,
  if◌then◌else◌,
}
use block_ex.Prelude.Words.{u64_mod}
use block_ex.Result.{Result, ok, err, running}
use block_ex.Rpc.{BlockHeader, GetBlockHeaderByHeightResult, Capabilities}
use block_ex.World.{Env, World, M, call, pure, ◌>>=◌}

pub record HeaderFetcher : Type 0 where
  pub buffered : List BlockHeader
  pub use_range : Bool
  pub batch_size : ℕ

abbrev pub new : Capabilities → ℕ → HeaderFetcher
new caps batch_size = record {
  buffered = [];
  use_range = caps.headers_range;
  batch_size = max batch_size 1;
}

-- The loop of `take_buffered`.
unfoldable pub skip_below : ℕ → List BlockHeader → List BlockHeader
skip_below height [] = []
skip_below height (front ∷ rest) =
    let skipped = skip_below height rest in
    if ltb front.height height then skipped else front ∷ rest

-- The front header, if it is the one that is asked for.
unfoldable pub pop_at : ℕ → List BlockHeader → Option BlockHeader × List BlockHeader
pop_at height [] = (none, [])
pop_at height (front ∷ rest) =
    if front.height == height then (some front, rest) else (none, front ∷ rest)

unfoldable pub take_buffered : ℕ → List BlockHeader → Option BlockHeader × List BlockHeader
unfolding skip_below pop_at
take_buffered height buffered = pop_at height (skip_below height buffered)

-- `start.saturating_add(self.batch_size.saturating_sub(1))`
unfoldable pub batch_end : ℕ → ℕ → ℕ
batch_end start batch_size = min (start + (batch_size - 1)) (u64_mod - 1)

-- What a call of `fetch` gives back: its result, the fetcher and the world.
abbrev pub Fetched : Type 0
Fetched = Result BlockHeader × HeaderFetcher × World

module _ (env : Env) where
  unfoldable pub fill_batch : ℕ → ℕ → M (List BlockHeader)
  unfolding batch_end
  fill_batch batch_size start =
      call (λ n. env.rpc.get_block_headers_range n start (batch_end start batch_size))

  unfoldable pub fetch_single : ℕ → M BlockHeader
  fetch_single height = do
    res ← call (λ n. env.rpc.get_block_header_by_height n height)
    pure res.block_header

  unfoldable pub fall_back : ℕ → HeaderFetcher → World → Fetched
  unfolding fetch_single
  fall_back height self w =
      let (res, w') = fetch_single height w in
      (res, record self { use_range = false; buffered = [] }, w')

  -- The second look into the buffer.
  unfoldable pub from_batch :
      ℕ → HeaderFetcher → Option BlockHeader × List BlockHeader → World → Fetched
  from_batch height self (some header, rest) w = (ok header, record self { buffered = rest }, w)
  from_batch height self (none, rest) w = fall_back height self w

  unfoldable pub after_fill : ℕ → HeaderFetcher → Result (List BlockHeader) → World → Fetched
  unfolding take_buffered
  after_fill height self (ok headers) w = from_batch height self (take_buffered height headers) w
  after_fill height self (err e) w = fall_back height self w
  after_fill height self running w = fall_back height self w

  -- The first look into the buffer.
  unfoldable pub from_buffer :
      ℕ → HeaderFetcher → Option BlockHeader × List BlockHeader → World → Fetched
  unfolding fill_batch
  from_buffer height self (some header, rest) w = (ok header, record self { buffered = rest }, w)
  from_buffer height self (none, rest) w =
      let (filled, w') = fill_batch self.batch_size height w in
      after_fill height (record self { buffered = rest }) filled w'

  unfoldable pub fetch : ℕ → HeaderFetcher → World → Fetched
  unfolding from_buffer from_batch after_fill fall_back fetch_single
  fetch height self w =
      if self.use_range
      then from_buffer height self (take_buffered height self.buffered) w
      else (let (res, w') = fetch_single height w in (res, self, w'))
