-- ===== src/Header/Sources.antt =====
-- `HeaderFetcher` of work_block.rs: where a header comes from that `fetch` returns.
use block_ex.Prelude.{
  ℕ, ◌+◌, ◌≡◌, refl, Bool, true, false, inl, inr, Bool-cases, Option, none, some, List, [], ◌∷◌,
  All, ltb, ◌==◌, if◌then◌else◌,
}
use block_ex.Result.{Result, ok, err, running, rpc}
use block_ex.Db.{Db}
use block_ex.Rpc.{BlockHeader, GetBlockHeaderByHeightResult}
use block_ex.World.{Env, World}
use block_ex.Header.{
  HeaderFetcher, Fetched, skip_below, pop_at, take_buffered, fetch, fetch_single, fall_back,
  from_batch, after_fill, from_buffer, fill_batch, batch_end,
}

-- A header that is returned has the property, a failure is one of the daemon, and the database is as it
-- was.
abbrev pub Gives : (BlockHeader → Type 0) → Db → Result BlockHeader → World → Type 0
Gives Q d (ok header) w = Q header × (w.database ≡ d)
Gives Q d (err e) w = (e ≡ rpc) × (w.database ≡ d)
Gives Q d running w = ⊥

module _ (Q : BlockHeader → Type 0) where
  skip_below-All : (h : ℕ) (l : List BlockHeader) → All Q l → All Q (skip_below h l)
  unfolding skip_below
  skip_below-All h [] a = tt
  skip_below-All h (x ∷ l) a = elim (Bool-cases (ltb x.height h)) [
    | inl e ↦ rw e (skip_below-All h l a.1)
    | inr e ↦ rw e a
  ]

  -- What is found in a buffer, and what is left of it.
  abbrev AllFound : Option BlockHeader × List BlockHeader → Type 0
  AllFound (none, rest) = All Q rest
  AllFound (some x, rest) = Q x × All Q rest

  pop_at-AllFound : (h : ℕ) (l : List BlockHeader) → All Q l → AllFound (pop_at h l)
  unfolding pop_at
  pop_at-AllFound h [] a = tt
  pop_at-AllFound h (x ∷ l) a = elim (Bool-cases (x.height == h)) [
    | inl e ↦ rw e a
    | inr e ↦ rw e a
  ]

  take_buffered-AllFound : (h : ℕ) (l : List BlockHeader) → All Q l → AllFound (take_buffered h l)
  unfolding take_buffered
  take_buffered-AllFound h l a = pop_at-AllFound h (skip_below h l) (skip_below-All h l a)

  -- Each answer of the daemon has the property.
  pub record Answers (env : Env) : Type 0 where
    pub single :
        (n h : ℕ) (res : GetBlockHeaderByHeightResult)
        → env.rpc.get_block_header_by_height n h ≡ some res
        → Q res.block_header
    pub range :
        (n start end : ℕ) (l : List BlockHeader)
        → env.rpc.get_block_headers_range n start end ≡ some l
        → All Q l

  module _ (env : Env) (answers : Answers env) where
    abbrev GivesAt : Db → Fetched → Type 0
    GivesAt d f = Gives Q d f.0 f.2

    fetch_single-Gives :
        (h : ℕ) (w : World) (o : Option GetBlockHeaderByHeightResult)
        → env.rpc.get_block_header_by_height w.calls h ≡ o
        → Gives Q w.database (fetch_single env h w).0 (fetch_single env h w).1
    unfolding fetch_single
    fetch_single-Gives h w none e = rw (e, fetch_single) (refl, refl)
    fetch_single-Gives h w (some res) e =
        rw (e, fetch_single) (answers.single w.calls h res e, refl)

    fall_back-Gives :
        (h : ℕ) (self : HeaderFetcher) (w : World) → GivesAt w.database (fall_back env h self w)
    unfolding fall_back
    fall_back-Gives h self w =
        fetch_single-Gives h w (env.rpc.get_block_header_by_height w.calls h) refl

    from_batch-Gives :
        (h : ℕ) (self : HeaderFetcher) (found : Option BlockHeader × List BlockHeader) (w : World)
        → AllFound found
        → GivesAt w.database (from_batch env h self found w)
    unfolding from_batch
    from_batch-Gives h self (some x, rest) w a = (a.0, refl)
    from_batch-Gives h self (none, rest) w a = fall_back-Gives h self w

    fill_batch-Gives :
        (h : ℕ) (self : HeaderFetcher) (w : World) (o : Option (List BlockHeader))
        → env.rpc.get_block_headers_range w.calls h (batch_end h self.batch_size) ≡ o
        → GivesAt w.database (
            after_fill env h self
              (fill_batch env self.batch_size h w).0
              (fill_batch env self.batch_size h w).1)
    unfolding fill_batch after_fill
    fill_batch-Gives h self w none e =
        rw (e, fill_batch) (fall_back-Gives h self (record w { calls = w.calls + 1 }))
    fill_batch-Gives h self w (some l) e =
        rw (e, fill_batch)
          (from_batch-Gives h self (take_buffered h l) (record w { calls = w.calls + 1 })
            (take_buffered-AllFound h l (answers.range w.calls h _ l e)))

    from_buffer-Gives :
        (h : ℕ) (self : HeaderFetcher) (found : Option BlockHeader × List BlockHeader) (w : World)
        → AllFound found
        → GivesAt w.database (from_buffer env h self found w)
    unfolding from_buffer
    from_buffer-Gives h self (some x, rest) w a = (a.0, refl)
    from_buffer-Gives h self (none, rest) w a =
        fill_batch-Gives h (record self { buffered = rest }) w
          (env.rpc.get_block_headers_range w.calls h (batch_end h self.batch_size)) refl

    -- A fetch ends, leaves the database alone, fails only when the daemon does, and returns a header
    -- with any property that all headers in the buffer and all answers of the daemon have.
    pub fetch-Gives :
        (h : ℕ) (self : HeaderFetcher) (w : World)
        → All Q self.buffered
        → Gives Q w.database (fetch env h self w).0 (fetch env h self w).2
    unfolding fetch
    fetch-Gives h self w a =
        chosen self.use_range _ _
          (from_buffer-Gives h self (take_buffered h self.buffered) w
            (take_buffered-AllFound h self.buffered a))
          (fetch_single-Gives h w (env.rpc.get_block_header_by_height w.calls h) refl)
      where
        chosen :
            (b : Bool) (x y : Fetched)
            → GivesAt w.database x
            → GivesAt w.database y
            → GivesAt w.database (if b then x else y)
        chosen true x y p q = p
        chosen false x y p q = q
