-- ===== src/Block/Chain.antt =====
-- work_block.rs: the blocks that `process_height` passes on, and the stored chain.
use mathlib.Core.Path.{subst}
use block_ex.Prelude.{
  ℕ, ◌≡◌, ◌⊎◌, inl, inr, refl, sym, ap, ◌∙◌, Bool, true, false, not, Option, none, some, Bytes,
  arith, All, All-keep, bytes_eq, bytes_eq_iff, ◌==◌,
}
use Prim.Native.String.{len}
use block_ex.Prelude.Int.{ℤ, pos, ◌-ℤ◌}
use block_ex.Prelude.Words.{as_i64, i64_try_from}
use block_ex.Result.{Result, ok, err, running, ok_or, json_decode, block_json_missing, overflow}
use block_ex.External.{Json}
use block_ex.Db.{Db}
use block_ex.Rpc.{BlockHeader}
use block_ex.Pipeline.{SchedMsg, BlockMsg}
use block_ex.World.{Env, World, call, query, lift}
use block_ex.World.Laws.{>>=-eq-ok, query-ok}
use block_ex.World.Rules.{ReadsOnly, ReadsOnly-bind, ReadsOnly-call, ReadsOnly-lift}
use block_ex.Store.{hash_at, block_hash_at}
use block_ex.Reorg.{heal_reorg}
use block_ex.Block.{
  prev_bytes, reorg, check_stored, check_prev, fetch_block_json, extract_tx_hashes, process_header,
  window_i64,
}

-- The hash that is stored for the height below the header, if there is one, is the one that the
-- header names.
abbrev pub Continues : Env → BlockHeader → Db → Type 0
Continues env header d =
    let below = hash_at (as_i64 header.height -ℤ pos 1) d in
    (below ≡ none) ⊎ (below ≡ some (prev_bytes env header.prev_hash))

module _ (env : Env) where
  reorg-fails :
      (n : ℕ) (header : BlockHeader) (w : World) {u : Unit {0}} {w' : World}
      → reorg env n header w ≡ (ok u, w')
      → ⊥
  unfolding reorg
  reorg-fails n header w h =
      let (_, _, _, e) =
        >>=-eq-ok (heal_reorg env (as_i64 header.height) (window_i64 env n)) _ w h in
      absurd (cc (ap (λ r. r.0) e))

  check_stored-ok :
      (n : ℕ) (header : BlockHeader) (stored : Option Bytes) (w : World) {u : Unit {0}} {w' : World}
      → check_stored env n header stored w ≡ (ok u, w')
      → (w' ≡ w) × ((stored ≡ none) ⊎ (stored ≡ some (prev_bytes env header.prev_hash)))
  unfolding check_stored
  check_stored-ok n header none w h = (ap (λ r. r.1) (sym h), inl refl)
  check_stored-ok n header (some b) w {u} {w'} h =
      go (bytes_eq b (prev_bytes env header.prev_hash)) refl
    where
      go :
          (t : Bool)
          → bytes_eq b (prev_bytes env header.prev_hash) ≡ t
          → (w' ≡ w) × ((some b ≡ none) ⊎ (some b ≡ some (prev_bytes env header.prev_hash)))
      go true e = (
        ap (λ r. r.1) (sym (rw (e, check_stored) at h)),
        inr (ap some ((bytes_eq_iff b (prev_bytes env header.prev_hash)).0 e)),
      )
      go false e = absurd (reorg-fails n header w (rw (e, check_stored) at h))

  check_prev-ok :
      (n : ℕ) (header : BlockHeader) (w : World) {u : Unit {0}} {w' : World}
      → check_prev env n header w ≡ (ok u, w')
      → (w'.database ≡ w.database) × Continues env header w.database
  unfolding check_prev block_hash_at
  check_prev-ok n header w h =
      let k = as_i64 header.height -ℤ pos 1 in
      let (stored, w₁, read, rest) = >>=-eq-ok (query env (hash_at k)) _ w h in
      let (same, c) = check_stored-ok n header stored w₁ rest in
      let (e, d) = query-ok env (hash_at k) w read in
      (
        ap (λ x. x.database) same ∙ d,
        subst (λ s. (s ≡ none) ⊎ (s ≡ some (prev_bytes env header.prev_hash))) (sym e) c,
      )

  ReadsOnly-fetch_block_json : (header : BlockHeader) → ReadsOnly (fetch_block_json env header)
  unfolding fetch_block_json
  ReadsOnly-fetch_block_json header =
      ReadsOnly-bind (call (λ n. env.rpc.get_block n header.hash false)) _ (ReadsOnly-call _) λ blk.
        ReadsOnly-bind (lift (ok_or (block_json_missing header.height) blk.json)) _
          (ReadsOnly-lift _) λ j. record { at = λ w. refl }

-- The message is for the height of the job, and carries the header and the tips as they were.
pub record IsPassedOn (job : SchedMsg) (header : BlockHeader) (msg : BlockMsg) : Type 0 where
  pub height : msg.height ≡ job.height
  pub tip_height : msg.tip_height ≡ job.tip_height
  pub finalized_height : msg.finalized_height ≡ job.finalized_height
  pub header_kept : msg.header ≡ header
  pub hash : msg.hash ≡ header.hash
  pub timestamp : i64_try_from header.timestamp ≡ some msg.ts
  pub no_empty_hash : All (λ h. (len h == 0) ≡ false) msg.tx_hashes

-- The same of an outcome that is a success.
abbrev pub Passes : SchedMsg → BlockHeader → Result BlockMsg → Type 0
Passes job header (ok msg) = IsPassedOn job header msg
Passes job header (err e) = Unit
Passes job header running = Unit

not_empty : (t : Bool) → not t ≡ true → t ≡ false
not_empty t h = ground arith

some_of : (o : Option ℤ) (a : ℤ) → ok_or overflow o ≡ ok a → o ≡ some a
some_of o a h = ground arith

module _ (env : Env) (json : Json) where
  -- When `process_header` succeeds, the stored block below its header is missing or has the hash
  -- that the header names, the message is the job's, no hash of a transaction in it is empty, and
  -- the database is as it was.
  pub process_header-ok :
      (n : ℕ) (job : SchedMsg) (header : BlockHeader) (w : World) {msg : BlockMsg} {w' : World}
      → process_header env json n job header w ≡ (ok msg, w')
      → (w'.database ≡ w.database) × Continues env header w.database × IsPassedOn job header msg
  unfolding process_header
  process_header-ok n job header w {msg} {w'} h =
      let (_, w₁, checked, h₁) = >>=-eq-ok (check_prev env n header) _ w h in
      let (fetched, w₂, read, h₂) = >>=-eq-ok (fetch_block_json env header) _ w₁ h₁ in
      let (v, w₃, parsed, h₃) =
        >>=-eq-ok (lift (ok_or json_decode (json.from_str fetched.0))) _ w₂ h₂ in
      let (ts, w₄, timed, h₄) =
        >>=-eq-ok (lift (ok_or overflow (i64_try_from header.timestamp))) _ w₃ h₃ in
      let (same, c) = check_prev-ok env n header w checked in
      let database : World → Db = λ x. x.database in
      (
        ap (λ r. database r.1) (sym h₄)
            ∙ ap (λ r. database r.1) (sym timed)
            ∙ ap (λ r. database r.1) (sym parsed)
            ∙ ap (λ r. database r.1) (sym read)
            ∙ (ReadsOnly-fetch_block_json env header).at w₁
            ∙ same,
        c,
        subst (Passes job header) (ap (λ r. r.0) h₄) (record {
          height = refl;
          tip_height = refl;
          finalized_height = refl;
          header_kept = refl;
          hash = refl;
          timestamp = some_of (i64_try_from header.timestamp) ts (ap (λ r. r.0) timed);
          no_empty_hash =
              All-keep (λ h. (len h == 0) ≡ false) (λ h. not (len h == 0))
                (extract_tx_hashes json v) (λ x. not_empty (len x == 0));
        }),
      )
