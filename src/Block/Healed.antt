-- ===== src/Block/Healed.antt =====
-- work_block.rs and reorg.rs: what a height that found a reorganisation leaves behind.
use mathlib.Core.Path.{subst}
use block_ex.Prelude.{
  ℕ, suc, ◌+◌, ◌%◌, ◌^◌, ◌<◌, ◌≡◌, ◌≢◌, refl, sym, ap, ◌∙◌, Bool, true, false, Option, none, some,
  List, String, Bytes, bytes_eq, bytes_eq_refl, length, All, arith, if◌then◌else◌,
}
use block_ex.Prelude.Int.{ℤ, pos, ◌-ℤ◌, ◌≤ℤ◌}
use block_ex.Prelude.Order.{leb_ℤ}
use block_ex.Prelude.Words.{as_i64, as_u64}
use block_ex.Result.{Result, Error, ok, err, running, reorg_detected}
use block_ex.Db.{Db}
use block_ex.Rpc.{BlockHeader, GetBlockHeaderByHeightResult}
use block_ex.World.{Env, World, query}
use block_ex.World.Rules.{Ends, Ends-bind, ending}
use block_ex.World.Errors.{FailsIn}
use block_ex.Store.{hash_at, block_hash_at}
use block_ex.Reorg.{heal_reorg}
use block_ex.Reorg.Fork.{Agrees, agrees, live_hash}
use block_ex.Reorg.Heal.{heal_reorg-Unwound}
use block_ex.Reorg.Errors.{IsHealError, heal_reorg-FailsBy}
use block_ex.Reorg.Termination.{heal_reorg_total}
use block_ex.Block.{prev_bytes, window_i64, reorg, check_stored, check_prev}

-- A header names the hash of the height below as the block before it.
abbrev pub IsLinked : (ℕ → String) → BlockHeader → Type 0
IsLinked hash_of x = (k : ℕ) → x.height ≡ suc k → x.prev_hash ≡ hash_of k

-- The daemon's chain does not change: it answers by the block that has the asked height and the hash
-- of that height, each of its headers is linked, and a hash has 32 bytes.
pub record IsStable (env : Env) (hash_of : ℕ → String) : Type 0 where
  pub single :
      (n h : ℕ) (res : GetBlockHeaderByHeightResult)
      → env.rpc.get_block_header_by_height n h ≡ some res
      → (res.block_header.height ≡ h)
        × (res.block_header.hash ≡ hash_of h)
        × IsLinked hash_of res.block_header
  pub range :
      (n start end : ℕ) (l : List BlockHeader)
      → env.rpc.get_block_headers_range n start end ≡ some l
      → All (IsLinked hash_of) l
  pub sized : (h : ℕ) (b : Bytes) → env.hex.decode (hash_of h) ≡ some b → length b ≡ 32

abbrev pub NotReorg : Error → Type 0
NotReorg reorg_detected = ⊥
NotReorg _ = Unit

module _ (env : Env) (n : ℕ) where
  -- What a check that found a reorganisation has done: the stored hash is another, and the healing
  -- succeeded.
  pub record Healed (header : BlockHeader) (w w' : World) : Type 0 where
    pub stored : Bytes
    pub before : World
    pub found : hash_at (as_i64 header.height -ℤ pos 1) w.database ≡ some stored
    pub other : stored ≢ prev_bytes env header.prev_hash
    pub same : before.database ≡ w.database
    pub healed : heal_reorg env (as_i64 header.height) (window_i64 env n) before ≡ (ok tt, w')

  not_heal_error : (fw : ℤ) (e : Error) → IsHealError fw e → NotReorg e
  not_heal_error fw reorg_detected p = absurd p
  not_heal_error fw _ p = tt

  reorg-detects :
      (header : BlockHeader) (w : World) {w' : World}
      → reorg env n header w ≡ (err reorg_detected, w')
      → heal_reorg env (as_i64 header.height) (window_i64 env n) w ≡ (ok tt, w')
  unfolding reorg
  reorg-detects header w {w'} h =
      go (heal_reorg env (as_i64 header.height) (window_i64 env n) w) refl
        ((heal_reorg-FailsBy env (window_i64 env n) (as_i64 header.height)).at w)
    where
      go :
          (x : Result (Unit {0}) × World)
          → heal_reorg env (as_i64 header.height) (window_i64 env n) w ≡ x
          → FailsIn (IsHealError (window_i64 env n)) x.0
          → heal_reorg env (as_i64 header.height) (window_i64 env n) w ≡ (ok tt, w')
      go (ok tt, w₁) e p =
          e
          ∙ ap (λ v. (ok tt, v)) (ap (λ (r : Result (Unit {0}) × World). r.1) (rw (e, reorg) at h))
      go (err reorg_detected, w₁) e p = absurd p
      go (err x, w₁) e p =
          absurd (cc (ap (λ (r : Result (Unit {0}) × World). r.0) (rw (e, reorg) at h)))
      go (running, w₁) e p =
          absurd (cc (ap (λ (r : Result (Unit {0}) × World). r.0) (rw (e, reorg) at h)))

  check_stored-detects :
      (header : BlockHeader) (stored : Option Bytes) (w₀ w : World) {w' : World}
      → hash_at (as_i64 header.height -ℤ pos 1) w₀.database ≡ stored
      → w.database ≡ w₀.database
      → check_stored env n header stored w ≡ (err reorg_detected, w')
      → Healed header w₀ w'
  unfolding check_stored
  check_stored-detects header none w₀ w found same h =
      absurd (cc (ap (λ (r : Result (Unit {0}) × World). r.0) h))
  check_stored-detects header (some b) w₀ w {w'} found same h =
      go (bytes_eq b (prev_bytes env header.prev_hash)) refl
    where
      go : (t : Bool) → bytes_eq b (prev_bytes env header.prev_hash) ≡ t → Healed header w₀ w'
      go true e =
          absurd (cc (ap (λ (r : Result (Unit {0}) × World). r.0) (rw (e, check_stored) at h)))
      go false e = record {
        stored = b;
        before = w;
        found = found;
        other = λ q. cc (sym e ∙ ap (bytes_eq b) (sym q) ∙ bytes_eq_refl b);
        same = same;
        healed = reorg-detects header w (rw (e, check_stored) at h);
      }

  pub check_prev-detects :
      (header : BlockHeader) (w : World) {w' : World}
      → check_prev env n header w ≡ (err reorg_detected, w')
      → Healed header w w'
  unfolding check_prev block_hash_at query
  check_prev-detects header w {w'} h = go (env.faults w.statements) refl
    where
      go : (t : Bool) → env.faults w.statements ≡ t → Healed header w w'
      go true e =
          absurd (cc (ap (λ (r : Result (Unit {0}) × World). r.0) (rw (e, check_prev) at h)))
      go false e =
          check_stored-detects header (hash_at (as_i64 header.height -ℤ pos 1) w.database) w
            (record w { statements = w.statements + 1 }) refl refl (rw (e, check_prev) at h)

  -- Where no block is stored below, the check finds no reorganisation.
  pub check_prev-none :
      (header : BlockHeader) (w : World)
      → hash_at (as_i64 header.height -ℤ pos 1) w.database ≡ none
      → FailsIn NotReorg (check_prev env n header w).0
  unfolding check_prev block_hash_at query check_stored
  check_prev-none header w gone = go (env.faults w.statements) refl
    where
      go : (t : Bool) → env.faults w.statements ≡ t → FailsIn NotReorg (check_prev env n header w).0
      go true e = rw (e, check_prev) tt
      go false e = rw (e, check_prev, gone) tt

  check_stored-Ends :
      (header : BlockHeader) (stored : Option Bytes) → Ends (check_stored env n header stored)
  unfolding check_stored reorg
  check_stored-Ends header none = search ending
  check_stored-Ends header (some b) = go (bytes_eq b (prev_bytes env header.prev_hash)) refl
    where
      go :
          (t : Bool)
          → bytes_eq b (prev_bytes env header.prev_hash) ≡ t
          → Ends (check_stored env n header (some b))
      go true e = rw (e, check_stored) (search ending)
      go false e =
          rw (e, check_stored)
            (Ends-bind _ _
              (record {
                at = λ w. heal_reorg_total env (as_i64 header.height) (window_i64 env n) w;
              })
              λ u. search ending)

  pub check_prev-Ends : (header : BlockHeader) → Ends (check_prev env n header)
  unfolding check_prev block_hash_at
  check_prev-Ends header = search (ending, check_stored-Ends)

  -- The stored hash of a height that the stable daemon shares with the database is the one that the
  -- next header names.
  shared-eq-prev_bytes :
      (hash_of : ℕ → String) (stable : IsStable env hash_of) (d : Db) (k : ℕ) (b : Bytes)
      → k < 2 ^ 63
      → Agrees env d (pos k)
      → hash_at (pos k) d ≡ some b
      → b ≡ prev_bytes env (hash_of k)
  unfolding prev_bytes as_u64
  shared-eq-prev_bytes hash_of stable d k b small (agrees m c said here) found =
      go (env.rpc.get_block_header_by_height m k) refl (rw (live_hash, as_u64, low) at said)
    where
      low : k % 2 ^ 64 ≡ k
      low = omega arith

      go :
          (o : Option GetBlockHeaderByHeightResult)
          → env.rpc.get_block_header_by_height m k ≡ o
          → (elim o as (λ _. Option Bytes) [
            | none ↦ none
            | some r ↦ env.hex.decode r.block_header.hash
          ])
            ≡ some c
          → b ≡ prev_bytes env (hash_of k)
      go none e q = absurd (cc q)
      go (some r) e q =
          let (_, hash, _) = stable.single m k r e in
          let decoded : env.hex.decode (hash_of k) ≡ some c = rw hash at q in
          let size = stable.sized k c decoded in
          let same : b ≡ c = cc (sym found ∙ here) in rw (prev_bytes, decoded, size) same

  pub below_start : (k : ℕ) → suc k < 2 ^ 63 → as_i64 (suc k) -ℤ pos 1 ≡ pos k
  unfolding as_i64 ◌-ℤ◌
  below_start k small = ground arith

  top_only : (k : ℕ) (f : ℤ) → f ≤ℤ pos k → leb_ℤ (pos k) f ≡ true → f ≡ pos k
  top_only k f p q = ground arith

  -- After a healing in a stable chain no block is stored just below the header.
  pub nothing_below :
      (inverse : (b : Bytes) → env.decode (env.encode b) ≡ some b) (hash_of : ℕ → String)
      (stable : IsStable env hash_of) (header : BlockHeader) (k : ℕ) (w w' : World)
      → header.height ≡ suc k
      → suc k < 2 ^ 63
      → header.prev_hash ≡ hash_of k
      → Healed header w w'
      → hash_at (pos k) w'.database ≡ none
  nothing_below inverse hash_of stable header k w w' height small prev h =
      let (f, fork, unwound) =
        heal_reorg-Unwound env inverse (as_i64 header.height) (window_i64 env n) h.before
          h.healed in
      go f fork.below_start fork.shared (leb_ℤ (pos k) f) refl (unwound.hashes (pos k))
    where
      low : as_i64 header.height -ℤ pos 1 ≡ pos k
      low = ap (λ x. as_i64 x -ℤ pos 1) height ∙ below_start k small

      found : hash_at (pos k) w.database ≡ some h.stored
      found = ap (λ x. hash_at x w.database) (sym low) ∙ h.found

      go :
          (f : ℤ)
          → f ≤ℤ as_i64 header.height -ℤ pos 1
          → Agrees env h.before.database f
          → (t : Bool) → leb_ℤ (pos k) f ≡ t
          → hash_at (pos k) w'.database
            ≡ (if leb_ℤ (pos k) f then hash_at (pos k) h.before.database else none)
          → hash_at (pos k) w'.database ≡ none
      go f below shared false e q =
          q ∙ ap (λ t. if t then hash_at (pos k) h.before.database else none) e
      go f below shared true e q =
          let top : f ≡ pos k = top_only k f (subst (λ x. f ≤ℤ x) low below) e in
          absurd (
            h.other (
              shared-eq-prev_bytes hash_of stable h.before.database k h.stored (omega arith)
                (subst (Agrees env h.before.database) top shared)
                (ap (hash_at (pos k)) h.same ∙ found)
              ∙ ap (prev_bytes env) (sym prev)))
