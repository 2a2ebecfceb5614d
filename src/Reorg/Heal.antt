-- ===== src/Reorg/Heal.antt =====
-- reorg.rs: what `heal_reorg` leaves behind.
use block_ex.Reorg.Requeued.{HasTxIn, BackInMempool, RequeuedRange, requeue_range-ok}
use mathlib.Core.Option
use mathlib.Core.Path.{subst, fun_ext}
use block_ex.Prelude.{
  ◌+◌, ◌≡◌, ◌⊎◌, inl, inr, sym, ap, ◌∙◌, true, false, not, none, some, List, Bytes, arith, keep,
  find-keep_same, find-keep-none, if◌then◌else◌, Bool-cases,
}
use block_ex.Prelude.Int.{ℤ, pos, pos_part, ◌+ℤ◌, ◌-ℤ◌, ◌≤ℤ◌}
use block_ex.Prelude.Order.{leb_ℤ, eq_ℤ}
use block_ex.Result.{ok}
use block_ex.Db.{Db, TipRow}
use block_ex.World.{Env, World, execute, transaction, ◌>>=◌, ◌>>◌}
use block_ex.World.Laws.{>>=-eq-ok, execute-ok, transaction-ok}
use block_ex.Store.{hash_at, delete_blocks, delete_tips}
use block_ex.Store.Mempool.{in_mempool, others}
use block_ex.Reorg.{db_hash_at, find_fork, requeue_range, unwind, heal_reorg}
use block_ex.Reorg.Fork.{IsFork, find_fork-IsFork, db_hash_at-ok}

below_fork : (f k h : ℤ) → leb_ℤ k f ≡ true → eq_ℤ h k ≡ true → not (leb_ℤ (f +ℤ pos 1) h) ≡ true
unfolding ◌+ℤ◌
below_fork f k h low e = ground arith

above_fork : (f k h : ℤ) → leb_ℤ k f ≡ false → eq_ℤ h k ≡ true → not (leb_ℤ (f +ℤ pos 1) h) ≡ false
unfolding ◌+ℤ◌
above_fork f k h high e = ground arith

not_above : (f h : ℤ) → not (leb_ℤ (f +ℤ pos 1) h) ≡ leb_ℤ h f
unfolding ◌+ℤ◌
not_above f h = ground arith

keep_tips :
    (f : ℤ) (tips : List TipRow)
    → keep (λ r. not (leb_ℤ (f +ℤ pos 1) r.height)) tips ≡ keep (λ r. leb_ℤ r.height f) tips
keep_tips f tips = ap (λ p. keep p tips) (fun_ext λ r. not_above f r.height)

hash_at-delete_blocks :
    (f k : ℤ) (d : Db)
    → hash_at k (delete_blocks (f +ℤ pos 1) d) ≡ (if leb_ℤ k f then hash_at k d else none)
unfolding hash_at delete_blocks
hash_at-delete_blocks f k d = elim (Bool-cases (leb_ℤ k f)) [
  | inl low ↦ rw low (
      ap (Option.map (λ b. b.hash)) (
        find-keep_same (λ b. eq_ℤ b.height k) (λ b. not (leb_ℤ (f +ℤ pos 1) b.height)) d.blocks
          (λ b e. below_fork f k b.height low e)))
  | inr high ↦ rw high (
      ap (Option.map (λ b. b.hash)) (
        find-keep-none (λ b. eq_ℤ b.height k) (λ b. not (leb_ℤ (f +ℤ pos 1) b.height)) d.blocks
          (λ b e. above_fork f k b.height high e)))
]

-- From `d` to `d'` the blocks and the tips above `f` are gone, those up to `f` are as they were, the
-- transactions of the heights above `f` and below `start` are in the mempool, which has lost nothing and
-- got nothing else, also nothing of the blocks from `start` on, and the transactions, the soft facts and the checkpoint are as they were.
pub record Unwound (env : Env) (f start : ℤ) (d d' : Db) : Type 0 where
  pub hashes : (k : ℤ) → hash_at k d' ≡ (if leb_ℤ k f then hash_at k d else none)
  pub tips : d'.chain_tips ≡ keep (λ r. leb_ℤ r.height f) d.chain_tips
  pub back : (k : ℤ) → f +ℤ pos 1 ≤ℤ k → k +ℤ pos 1 ≤ℤ start → BackInMempool k d d'
  pub kept : (h : Bytes) → in_mempool h d ≡ true → in_mempool h d' ≡ true
  pub only :
      (h : Bytes)
      → in_mempool h d' ≡ true
      → (in_mempool h d ≡ true) ⊎ HasTxIn env (f +ℤ pos 1) start h d
  pub txs : d'.txs ≡ d.txs
  pub soft_facts : d'.soft_facts ≡ d.soft_facts
  pub checkpoint : d'.ingestor_checkpoint ≡ d.ingestor_checkpoint

hash_at-delete_tips :
    (g k : ℤ) (d d₁ : Db) → others d₁ ≡ others d → hash_at k (delete_tips g d₁) ≡ hash_at k d
unfolding hash_at delete_tips
hash_at-delete_tips g k d d₁ same = ap (λ x. hash_at k x) same

Unwound-deletes :
    (env : Env) (f start : ℤ) (d d₁ : Db)
    → RequeuedRange env (f +ℤ pos 1) start d d₁
    → Unwound env f start d (delete_blocks (f +ℤ pos 1) (delete_tips (f +ℤ pos 1) d₁))
unfolding delete_blocks delete_tips
Unwound-deletes env f start d d₁ q = record {
  hashes = λ k.
      hash_at-delete_blocks f k (delete_tips (f +ℤ pos 1) d₁)
      ∙ ap (λ o. if leb_ℤ k f then o else none) (hash_at-delete_tips (f +ℤ pos 1) k d d₁ q.same);
  tips = keep_tips f d₁.chain_tips ∙ ap (λ x. keep (λ r. leb_ℤ r.height f) x.chain_tips) q.same;
  back = q.added;
  kept = q.kept;
  only = q.only;
  txs = ap (λ x. x.txs) q.same;
  soft_facts = ap (λ x. x.soft_facts) q.same;
  checkpoint = ap (λ x. x.ingestor_checkpoint) q.same;
}

module _ (env : Env) (inverse : (b : Bytes) → env.decode (env.encode b) ≡ some b) where
  range_length : (f start : ℤ) → start ≤ℤ f +ℤ pos (pos_part (start -ℤ f))
  unfolding ◌+ℤ◌ ◌-ℤ◌
  range_length f start = ground arith

  range_exact :
      (g start : ℤ) → (pos_part (start -ℤ g) ≡ 0) ⊎ (g +ℤ pos (pos_part (start -ℤ g)) ≤ℤ start)
  unfolding ◌+ℤ◌ ◌-ℤ◌
  range_exact g start = ground arith

  unwind-Unwound :
      (f start : ℤ) (w : World) {u : Unit {0}} {w' : World}
      → unwind env (f +ℤ pos 1) start w ≡ (ok u, w')
      → Unwound env f start w.database w'.database
  unfolding unwind
  unwind-Unwound f start w {u} {w'} h =
      let g = f +ℤ pos 1 in
      let (v, w₁, requeued, rest) =
        >>=-eq-ok (requeue_range env (pos_part (start -ℤ g)) g)
          (λ _. execute env (delete_tips g) >> execute env (delete_blocks g)) w h in
      let (v', w₂, tips, last) =
        >>=-eq-ok (execute env (delete_tips g)) (λ _. execute env (delete_blocks g)) w₁ rest in
      subst (Unwound env f start w.database)
        (sym (
          execute-ok env (delete_blocks g) w₂ last
          ∙ ap (delete_blocks g) (execute-ok env (delete_tips g) w₁ tips)))
        (Unwound-deletes env f start w.database w₁.database (
          requeue_range-ok env inverse (pos_part (start -ℤ g)) g start w (range_length g start)
            (range_exact g start) requeued))

  Unwound-transaction :
      (f start : ℤ) (w₂ : World) {u : Unit {0}} {w' : World}
      → transaction env (unwind env (f +ℤ pos 1) start) w₂ ≡ (ok u, w')
      → Unwound env f start w₂.database w'.database
  Unwound-transaction f start w₂ {u} {w'} h =
      let (w₀, w₁, before, ran, after) = transaction-ok env (unwind env (f +ℤ pos 1) start) w₂ h in
      subst (λ d. Unwound env f start d w'.database) before
        (subst (Unwound env f start w₀.database) (sym after) (unwind-Unwound f start w₀ ran))

  -- Where the database decodes what it encodes, a healing that succeeds has found the highest block below
  -- its start that the database shares with the daemon, within the window. The blocks and tips above it
  -- are gone, also those at the start and above. The transactions of the heights above it and below the
  -- start are in the mempool, which has lost nothing and got no others: none has come because
  -- of a block at the start or above. The transactions, the soft facts and the checkpoint are as they were.
  pub heal_reorg-Unwound :
      (start finality_window : ℤ) (w : World) {u : Unit {0}} {w' : World}
      → heal_reorg env start finality_window w ≡ (ok u, w')
      → (f : ℤ) × IsFork env w.database finality_window 0 (start -ℤ pos 1) f
        × Unwound env f start w.database w'.database
  unfolding heal_reorg
  heal_reorg-Unwound start fw w {u} {w'} h =
      let top = start -ℤ pos 1 in
      let search = find_fork env (pos_part fw + 2) fw top 0 in
      let finish = λ (f : ℤ). transaction env (unwind env (f +ℤ pos 1) start) in
      let (b, w₁, stored, rest) = >>=-eq-ok (db_hash_at env top) (λ b. search b >>= finish) w h in
      let (f, w₂, found, healed) = >>=-eq-ok (search b) finish w₁ rest in
      healed_from start fw w b w₁ f w₂ (db_hash_at-ok env top w stored) found
        (Unwound-transaction f start w₂ healed)
    where
      healed_from :
          (start fw : ℤ) (w : World) (b : Bytes) (w₁ : World) (f : ℤ) (w₂ : World)
          → (hash_at (start -ℤ pos 1) w.database ≡ some b) × (w₁.database ≡ w.database)
          → find_fork env (pos_part fw + 2) fw (start -ℤ pos 1) 0 b w₁ ≡ (ok f, w₂)
          → Unwound env f start w₂.database w'.database
          → (f : ℤ) × IsFork env w.database fw 0 (start -ℤ pos 1) f
            × Unwound env f start w.database w'.database
      healed_from start fw w b w₁ f w₂ (here, same) found done =
          let r =
            find_fork-IsFork env (pos_part fw + 2) fw (start -ℤ pos 1) 0 b w₁
              (ap (hash_at (start -ℤ pos 1)) same ∙ here) found in
          (
            f,
            subst (λ d. IsFork env d fw 0 (start -ℤ pos 1) f) same r.0,
            subst (λ d. Unwound env f start d w'.database) (r.1 ∙ same) done,
          )
