-- ===== src/Reorg/Fork.antt =====
-- reorg.rs: what it is that a height is shared with the daemon, and what the search for one finds.
use block_ex.Prelude.{
  ℕ, zero, suc, ◌+◌, ◌≡◌, ◌≢◌, ◌⊎◌, inl, inr, refl, sym, ap, ◌∙◌, Bool, true, false, Option, none,
  some, Bytes, bytes_eq, bytes_eq_iff, arith,
}
use block_ex.Prelude.Int.{ℤ, pos, ◌+ℤ◌, ◌-ℤ◌, ◌≤ℤ◌, int_laws}
use block_ex.Prelude.Order.{leb_ℤ, leb_ℤ_iff}
use block_ex.Prelude.Words.{as_u64}
use block_ex.Result.{ok}
use block_ex.Db.{Db}
use block_ex.World.{Env, World, M, pure, query}
use block_ex.World.Laws.{>>=-eq-ok}
use block_ex.Store.{block_hash_at, hash_at}
use block_ex.Reorg.{db_hash_at, live_hash_at, compare_hashes, round, find_fork}
use mathlib.Core.Bool.{false≢true}
use mathlib.Core.Path.{subst}

module _ (env : Env) where
  -- The decoded hash that the daemon reports for a height, when `n` calls were made before.
  abbrev pub live_hash : ℕ → ℤ → Option Bytes
  live_hash n h = elim (env.rpc.get_block_header_by_height n (as_u64 h)) [
    | none ↦ none
    | some r ↦ env.hex.decode r.block_header.hash
  ]

  -- The database and the daemon have the same block at the height.
  pub data Agrees (d : Db) (h : ℤ) : Type 0 where
    agrees : (n : ℕ) (b : Bytes) → live_hash n h ≡ some b → hash_at h d ≡ some b → Agrees d h

  -- They have different ones.
  pub data Differs (d : Db) (h : ℤ) : Type 0 where
    differs :
        (n : ℕ) (a b : Bytes) → live_hash n h ≡ some a → hash_at h d ≡ some b → a ≢ b → Differs d h

  live_hash_at-ok :
      (h : ℤ) (w : World) {b : Bytes} {w' : World}
      → live_hash_at env h w ≡ (ok b, w')
      → (live_hash w.calls h ≡ some b) × (w'.database ≡ w.database)
  unfolding live_hash_at
  live_hash_at-ok h w p = (ground arith, ground arith)

  pub db_hash_at-ok :
      (h : ℤ) (w : World) {b : Bytes} {w' : World}
      → db_hash_at env h w ≡ (ok b, w')
      → (hash_at h w.database ≡ some b) × (w'.database ≡ w.database)
  unfolding db_hash_at block_hash_at query
  db_hash_at-ok h w p = (ground arith, ground arith)

  -- What a round that succeeds has seen: the two hashes agree and it ends here, or they differ and
  -- the search went on below.
  data Round (again : ℤ → ℕ → Bytes → M ℤ) (h : ℤ) (steps : ℕ) (b : Bytes) (w : World) (f : ℤ)
      (w' : World) : Type 0 where
    stops :
        live_hash w.calls h ≡ some b
        → f ≡ h
        → w'.database ≡ w.database
        → Round again h steps b w f w'
    goes :
        (live below : Bytes) (w₂ : World)
        → live_hash w.calls h ≡ some live
        → live ≢ b
        → hash_at (h -ℤ pos 1) w.database ≡ some below
        → w₂.database ≡ w.database
        → again (h -ℤ pos 1) (steps + 1) below w₂ ≡ (ok f, w')
        → Round again h steps b w f w'

  module _ (again : ℤ → ℕ → Bytes → M ℤ) (h : ℤ) (steps : ℕ) (b : Bytes) (w : World) {f : ℤ}
      {w' : World} where
    went_below :
        (live : Bytes) (w₁ : World)
        → live_hash w.calls h ≡ some live
        → w₁.database ≡ w.database
        → live ≢ b
        → (below : Bytes) (w₂ : World) → db_hash_at env (h -ℤ pos 1) w₁ ≡ (ok below, w₂)
        → again (h -ℤ pos 1) (steps + 1) below w₂ ≡ (ok f, w')
        → Round again h steps b w f w'
    went_below live w₁ said same ne below w₂ found p =
        let e = db_hash_at-ok (h -ℤ pos 1) w₁ found in
        goes live below w₂ said ne (rw (ap (hash_at (h -ℤ pos 1)) same) at e.0) (e.1 ∙ same) p

    compared :
        (live : Bytes) (w₁ : World)
        → live_hash w.calls h ≡ some live
        → w₁.database ≡ w.database
        → compare_hashes env again h steps b live w₁ ≡ (ok f, w')
        → (t : Bool) → bytes_eq live b ≡ t
        → Round again h steps b w f w'
    unfolding compare_hashes
    compared live w₁ said same p true e =
        let q : (pure h) w₁ ≡ (ok f, w') = rw (e, compare_hashes) at p in
        stops (said ∙ ap some ((bytes_eq_iff live b).0 e)) (cc q)
          (sym (ap (λ r. r.1.database) q) ∙ same)
    compared live w₁ said same p false e =
        let (below, w₂, found, rest) =
          >>=-eq-ok (db_hash_at env (h -ℤ pos 1)) (again (h -ℤ pos 1) (steps + 1)) w₁
            (rw (e, compare_hashes) at p) in
        went_below live w₁ said same (λ eq. false≢true (sym e ∙ (bytes_eq_iff live b).1 eq)) below
          w₂ found rest

    asked :
        (fw : ℤ) (t : Bool)
        → leb_ℤ (pos steps) fw ≡ t
        → round env again fw h steps b w ≡ (ok f, w')
        → (pos steps ≤ℤ fw) × Round again h steps b w f w'
    unfolding round
    asked fw false e p = absurd (cc (ap (λ r. r.0) (rw (e, round) at p)))
    asked fw true e p =
        let (live, w₁, said, rest) =
          >>=-eq-ok (live_hash_at env h) (compare_hashes env again h steps b) w
            (rw (e, round) at p) in
        let s = live_hash_at-ok h w said in
        ((leb_ℤ_iff (pos steps) fw).0 e, compared live w₁ s.0 s.1 rest (bytes_eq live b) refl)

  at_or_below : (k h : ℤ) → k ≤ℤ h → (k ≡ h) ⊎ (k ≤ℤ h -ℤ pos 1)
  unfolding ◌-ℤ◌
  at_or_below k h p = ground arith

  -- What a search that starts at `h` and ends at `f` has seen.
  pub record IsFork (d : Db) (finality_window : ℤ) (steps : ℕ) (h f : ℤ) : Type 0 where
    pub shared : Agrees d f
    pub below_start : f ≤ℤ h
    pub in_window : h +ℤ pos steps ≤ℤ f +ℤ finality_window
    pub above : (k : ℤ) → k ≤ℤ h → f +ℤ pos 1 ≤ℤ k → Differs d k

  -- One more height that differs, above a fork that is found below it.
  IsFork-up :
      (d : Db) (fw h f : ℤ) (steps : ℕ)
      → Differs d h
      → IsFork d fw (steps + 1) (h -ℤ pos 1) f
      → IsFork d fw steps h f
  IsFork-up d fw h f steps here found = record {
    shared = found.shared;
    below_start = omega (int_laws, found.below_start);
    in_window = omega (int_laws, found.in_window);
    above = λ k top bottom. elim (at_or_below k h top) [
      | inl e ↦ rw e here
      | inr lower ↦ found.above k lower bottom
    ];
  }

  IsFork-here :
      (d : Db) (fw h : ℤ) (steps : ℕ) → Agrees d h → pos steps ≤ℤ fw → IsFork d fw steps h h
  IsFork-here d fw h steps here fits = record {
    shared = here;
    below_start = omega int_laws;
    in_window = omega int_laws;
    above = λ k top bottom. absurd (omega int_laws);
  }

  IsFork-Round :
      (again : ℤ → ℕ → Bytes → M ℤ) (fw h : ℤ) (steps : ℕ) (b : Bytes) (w : World) {f : ℤ}
      {w' : World}
      → ((below : Bytes) (w₂ : World)
          → hash_at (h -ℤ pos 1) w₂.database ≡ some below
          → again (h -ℤ pos 1) (steps + 1) below w₂ ≡ (ok f, w')
          → IsFork w₂.database fw (steps + 1) (h -ℤ pos 1) f × (w'.database ≡ w₂.database))
      → hash_at h w.database ≡ some b
      → pos steps ≤ℤ fw
      → Round again h steps b w f w'
      → IsFork w.database fw steps h f × (w'.database ≡ w.database)
  IsFork-Round again fw h steps b w ih here fits (stops said e same) =
      (rw e (IsFork-here w.database fw h steps (agrees w.calls b said here) fits), same)
  IsFork-Round again fw h steps b w {f} ih here fits (goes live below w₂ said ne under same p) =
      let r = ih below w₂ (rw (ap (hash_at (h -ℤ pos 1)) same) under) p in
      (
        IsFork-up w.database fw h f steps (differs w.calls live b said here ne)
            (subst (λ d. IsFork d fw (steps + 1) (h -ℤ pos 1) f) same r.0),
        r.1 ∙ same,
      )

  -- A search that succeeds returns the highest block at or below its start that the database and
  -- the daemon share, no further down than the window allows, and it writes nothing.
  pub find_fork-IsFork :
      (fuel : ℕ) (fw h : ℤ) (steps : ℕ) (b : Bytes) (w : World) {f : ℤ} {w' : World}
      → hash_at h w.database ≡ some b
      → find_fork env fuel fw h steps b w ≡ (ok f, w')
      → IsFork w.database fw steps h f × (w'.database ≡ w.database)
  unfolding find_fork
  find_fork-IsFork zero fw h steps b w here p = absurd (cc (ap (λ r. r.0) p))
  find_fork-IsFork (suc fuel) fw h steps b w {f} {w'} here p =
      let r = asked (find_fork env fuel fw) h steps b w fw (leb_ℤ (pos steps) fw) refl p in
      IsFork-Round (find_fork env fuel fw) fw h steps b w {f = f} {w' = w'}
        (λ below w₂ found q. find_fork-IsFork fuel fw (h -ℤ pos 1) (steps + 1) below w₂ found q)
        here r.0 r.1
