-- ===== src/Header/Ranges.antt =====
-- What `HeaderFetcher` of work_block.rs returns, and how many calls it takes.
use block_ex.Prelude.{
  ℕ, zero, suc, ◌+◌, ◌≡◌, ◌⊎◌, refl, sym, ap, ◌∙◌, Bool, true, false, Option, none, some, List, [],
  ◌∷◌, arith, length, inl, inr, if◌then◌else◌,
}
use block_ex.Result.{Result, ok, err, running}
use block_ex.Rpc.{BlockHeader, GetBlockHeaderByHeightResult}
use block_ex.World.{Env, World}
use block_ex.Header.{
  HeaderFetcher, skip_below, pop_at, take_buffered, fetch, fetch_single, fall_back, from_batch,
  after_fill, from_buffer, fill_batch, batch_end,
}

-- The daemon answers a request for a height by the header of that height.
abbrev pub AnswersHeight : Env → Type 0
AnswersHeight env =
    (n h : ℕ) (res : GetBlockHeaderByHeightResult)
    → env.rpc.get_block_header_by_height n h ≡ some res
    → res.block_header.height ≡ h

pop_at-height :
    (h : ℕ) (l : List BlockHeader) {header : BlockHeader} {rest : List BlockHeader}
    → pop_at h l ≡ (some header, rest)
    → header.height ≡ h
unfolding pop_at
pop_at-height h [] e = absurd (cc e)
pop_at-height h (front ∷ rest) e = ground arith

if-cases {ℓ} :
    {A : Type ℓ} (b : Bool) (x y : A) → ((if b then x else y) ≡ x) ⊎ ((if b then x else y) ≡ y)
if-cases true x y = inl refl
if-cases false x y = inr refl

module _ (env : Env) (answers : AnswersHeight env) where
  fetch_single-height :
      (h : ℕ) (w : World) {header : BlockHeader}
      → (fetch_single env h w).0 ≡ ok header
      → header.height ≡ h
  unfolding fetch_single
  fetch_single-height h w {header} e = go (env.rpc.get_block_header_by_height w.calls h) refl
    where
      go :
          (o : Option GetBlockHeaderByHeightResult)
          → env.rpc.get_block_header_by_height w.calls h ≡ o
          → header.height ≡ h
      go none q = absurd (ground arith)
      go (some res) q = ground (arith, answers w.calls h res q)

  fall_back-height :
      (h : ℕ) (self : HeaderFetcher) (w : World) {header : BlockHeader}
      → (fall_back env h self w).0 ≡ ok header
      → header.height ≡ h
  unfolding fall_back
  fall_back-height h self w e = fetch_single-height h w e

  from_batch-height :
      (h : ℕ) (self : HeaderFetcher) (l : List BlockHeader) (w : World) {header : BlockHeader}
      (found : Option BlockHeader × List BlockHeader)
      → pop_at h l ≡ found
      → (from_batch env h self found w).0 ≡ ok header
      → header.height ≡ h
  unfolding from_batch
  from_batch-height h self l w {header} (some x, rest) q e =
      let same : x ≡ header = cc e in ap (λ y. y.height) (sym same) ∙ pop_at-height h l q
  from_batch-height h self l w {header} (none, rest) q e = fall_back-height h self w e

  after_fill-height :
      (h : ℕ) (self : HeaderFetcher) (filled : Result (List BlockHeader)) (w : World)
      {header : BlockHeader}
      → (after_fill env h self filled w).0 ≡ ok header
      → header.height ≡ h
  unfolding after_fill
  after_fill-height h self (ok l) w e = from_batch-height h self (skip_below h l) w _ refl e
  after_fill-height h self (err x) w e = fall_back-height h self w e
  after_fill-height h self running w e = fall_back-height h self w e

  from_buffer-height :
      (h : ℕ) (self : HeaderFetcher) (l : List BlockHeader) (w : World) {header : BlockHeader}
      (found : Option BlockHeader × List BlockHeader)
      → pop_at h l ≡ found
      → (from_buffer env h self found w).0 ≡ ok header
      → header.height ≡ h
  unfolding from_buffer
  from_buffer-height h self l w {header} (some x, rest) q e =
      let same : x ≡ header = cc e in ap (λ y. y.height) (sym same) ∙ pop_at-height h l q
  from_buffer-height h self l w {header} (none, rest) q e =
      after_fill-height h _ (fill_batch env self.batch_size h w).0 _ e

  -- Where the daemon answers a single request for a height by the header of that height, a fetch that
  -- succeeds returns the header of the height that was asked for, from wherever it comes: the buffer,
  -- a new range or a single request.
  pub fetch-height :
      (h : ℕ) (self : HeaderFetcher) (w : World) {header : BlockHeader}
      → (fetch env h self w).0 ≡ ok header
      → header.height ≡ h
  unfolding fetch take_buffered
  fetch-height h self w {header} e =
      elim (if-cases self.use_range (from_buffer env h self (take_buffered h self.buffered) w)
        ((fetch_single env h w).0, self, (fetch_single env h w).1)) [
          | inl q ↦
              from_buffer-height h self (skip_below h self.buffered) w {header = header} _ refl
                (sym (ap (λ r. r.0) q) ∙ e)
          | inr q ↦ fetch_single-height h w {header = header} (sym (ap (λ r. r.0) q) ∙ e)
        ]

-- Headers of consecutive heights.
abbrev pub Consecutive : ℕ → List BlockHeader → Type 0
Consecutive h [] = Unit
Consecutive h (x ∷ xs) = (x.height ≡ h) × Consecutive (h + 1) xs

take_buffered-Consecutive :
    (h : ℕ) (x : BlockHeader) (xs : List BlockHeader)
    → x.height ≡ h
    → take_buffered h (x ∷ xs) ≡ (some x, xs)
unfolding take_buffered
take_buffered-Consecutive h x xs e = ground arith

module _ (env : Env) where
  fetch-buffered :
      (h batch : ℕ) (x : BlockHeader) (xs : List BlockHeader) (w : World)
      → x.height ≡ h
      → fetch env h (record { buffered = x ∷ xs; use_range = true; batch_size = batch }) w
        ≡ (ok x, record { buffered = xs; use_range = true; batch_size = batch }, w)
  unfolding fetch
  fetch-buffered h batch x xs w e = rw (take_buffered-Consecutive h x xs e, from_buffer)

  fetch-filled :
      (h batch : ℕ) (x : BlockHeader) (xs : List BlockHeader) (w : World)
      → x.height ≡ h
      → env.rpc.get_block_headers_range w.calls h (batch_end h batch) ≡ some (x ∷ xs)
      → fetch env h (record { buffered = []; use_range = true; batch_size = batch }) w ≡ (
        ok x,
        record { buffered = xs; use_range = true; batch_size = batch },
        record w { calls = w.calls + 1 },
      )
  unfolding fetch
  fetch-filled h batch x xs w e answered = rw answered (ground arith)

  -- `count` fetches of consecutive heights, the first of which fails being the last.
  abbrev after_first :
      Result BlockHeader
      → Result (List BlockHeader) × HeaderFetcher × World
      → Result (List BlockHeader) × HeaderFetcher × World
  after_first (ok x) (ok xs, self', w') = (ok (x ∷ xs), self', w')
  after_first (ok x) (err e, self', w') = (err e, self', w')
  after_first (ok x) (running, self', w') = (running, self', w')
  after_first (err e) (rest, self', w') = (err e, self', w')
  after_first running (rest, self', w') = (running, self', w')

  pub fetch_all : ℕ → ℕ → HeaderFetcher → World → Result (List BlockHeader) × HeaderFetcher × World
  fetch_all zero h self w = (ok [], self, w)
  fetch_all (suc count) h self w =
      let (r, self', w') = fetch env h self w in after_first r (fetch_all count (h + 1) self' w')

  fetch_all-buffered :
      (h batch : ℕ) (xs : List BlockHeader) (w : World)
      → Consecutive h xs
      → fetch_all (length xs) h (record { buffered = xs; use_range = true; batch_size = batch }) w
        ≡ (ok xs, record { buffered = []; use_range = true; batch_size = batch }, w)
  unfolding fetch_all
  fetch_all-buffered h batch [] w c = refl
  fetch_all-buffered h batch (x ∷ xs) w (e, c) =
      rw (fetch-buffered h batch x xs w e, fetch_all-buffered (h + 1) batch xs w c)

  -- Where the daemon answers the request for a range by headers of consecutive heights, one for
  -- each is fetched by that single call, in order, and the buffer is empty again.
  pub fetch_all-range :
      (h batch : ℕ) (x : BlockHeader) (xs : List BlockHeader) (w : World)
      → Consecutive h (x ∷ xs)
      → env.rpc.get_block_headers_range w.calls h (batch_end h batch) ≡ some (x ∷ xs)
      → fetch_all
          (length (x ∷ xs))
          h
          (record { buffered = []; use_range = true; batch_size = batch })
          w
        ≡ (
          ok (x ∷ xs),
          record { buffered = []; use_range = true; batch_size = batch },
          record w { calls = w.calls + 1 },
        )
  unfolding fetch_all
  fetch_all-range h batch x xs w (e, c) answered = rw (
    fetch-filled h batch x xs w e answered,
    fetch_all-buffered (h + 1) batch xs (record w { calls = w.calls + 1 }) c,
  )
