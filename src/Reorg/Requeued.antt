-- ===== src/Reorg/Requeued.antt =====
-- reorg.rs: the transactions that `heal_reorg` brings back to the mempool, height by height.
use mathlib.Core.Path.{subst}
use block_ex.Prelude.{
  contains, bytes_eq, ℕ, zero, suc, ◌≡◌, ◌⊎◌, inl, inr, sym, ap, ◌∙◌, true, some, Bytes, arith, All,
  All-weaken, keep,
}
use block_ex.Prelude.Int.{ℤ, pos, ◌+ℤ◌, ◌≤ℤ◌, int_laws}
use block_ex.Result.{ok}
use block_ex.Db.{Db, BlockRow, TipRow}
use block_ex.World.{Env, World}
use block_ex.World.Laws.{>>=-eq-ok}
use block_ex.Store.{eq_opt, requeue_mempool_from_block}
use block_ex.Store.Mempool.{in_mempool, HasTx, others, RequeuedAt, requeue_mempool_from_block-ok}
use block_ex.Reorg.{requeue_range}

-- The transactions of the height are in the mempool.
abbrev pub BackInMempool : ℤ → Db → Db → Type 0
BackInMempool k d d' =
    All (λ (t : block_ex.Db.TxRow). in_mempool t.tx_hash d' ≡ true)
      (keep (λ (t : block_ex.Db.TxRow). eq_opt t.block_height k) d.txs)

-- A transaction of a height from `lo` on, and below `hi`, has the hash.
abbrev pub HasTxIn : Env → ℤ → ℤ → Bytes → Db → Type 0
HasTxIn env lo hi h d = (k : ℤ) × (lo ≤ℤ k) × (k +ℤ pos 1 ≤ℤ hi) × HasTx env k h d

-- From `d` to `d'` the transactions of the heights from `lo` on, and below `hi`, have come back to
-- the mempool, which has lost nothing and got nothing else, and all else is the same.
pub record RequeuedRange (env : Env) (lo hi : ℤ) (d d' : Db) : Type 0 where
  pub same : others d' ≡ others d
  pub kept : (k : Bytes) → in_mempool k d ≡ true → in_mempool k d' ≡ true
  pub added : (k : ℤ) → lo ≤ℤ k → k +ℤ pos 1 ≤ℤ hi → BackInMempool k d d'
  pub only : (h : Bytes) → in_mempool h d' ≡ true → (in_mempool h d ≡ true) ⊎ HasTxIn env lo hi h d

at_or_above : (lo k : ℤ) → lo ≤ℤ k → (k ≡ lo) ⊎ (lo +ℤ pos 1 ≤ℤ k)
unfolding ◌+ℤ◌
at_or_above lo k p = ground arith

below_next : (lo k : ℤ) → lo +ℤ pos 1 ≤ℤ k → lo ≤ℤ k
unfolding ◌+ℤ◌
below_next lo k p = ground arith

RequeuedRange-cons :
    (env : Env) (lo hi : ℤ) (d d₁ d' : Db)
    → lo +ℤ pos 1 ≤ℤ hi
    → RequeuedAt env lo d d₁
    → RequeuedRange env (lo +ℤ pos 1) hi d₁ d'
    → RequeuedRange env lo hi d d'
RequeuedRange-cons env lo hi d d₁ d' room first more = record {
  same = more.same ∙ first.same;
  kept = λ k h. more.kept k (first.kept k h);
  added = λ k bottom top. elim (at_or_above lo k bottom) [
    | inl e ↦
        subst (λ h. BackInMempool h d d') (sym e)
          (All-weaken _ _ _ (λ t. more.kept t.tx_hash) first.added)
    | inr higher ↦
        subst
          (λ ts.
            All (λ (t : block_ex.Db.TxRow). in_mempool t.tx_hash d' ≡ true)
              (keep (λ (t : block_ex.Db.TxRow). eq_opt t.block_height k) ts))
          (ap (λ (x : Db). x.txs) first.same) (more.added k higher top)
  ];
  only = λ h there. elim (more.only h there) [
    | inl old ↦ elim (first.only h old) [
      | inl older ↦ inl older
      | inr at_lo ↦ inr (lo, omega int_laws, room, at_lo)
    ]
    | inr (k, bottom, top, has) ↦ inr (
      k,
      below_next lo k bottom,
      top,
      subst
          (λ ts.
            contains (λ (t : block_ex.Db.TxRow). bytes_eq t.tx_hash h)
              (keep (λ (t : block_ex.Db.TxRow). eq_opt t.block_height k) ts)
            ≡ true)
          (ap (λ (x : Db). x.txs) first.same) has,
    )
  ];
}

module _ (env : Env) (inverse : (b : Bytes) → env.decode (env.encode b) ≡ some b) where
  pub requeue_range-ok :
      (n : ℕ) (lo hi : ℤ) (w : World) {u : Unit {0}} {w' : World}
      → hi ≤ℤ lo +ℤ pos n
      → (n ≡ 0) ⊎ (lo +ℤ pos n ≤ℤ hi)
      → requeue_range env n lo w ≡ (ok u, w')
      → RequeuedRange env lo hi w.database w'.database
  unfolding requeue_range
  requeue_range-ok zero lo hi w {u} {w'} fits exact h =
      let e : w.database ≡ w'.database = ap (λ r. r.1.database) h in
      record {
        same = ap others (sym e);
        kept = λ k old. subst (λ d. in_mempool k d ≡ true) e old;
        added = λ k bottom top. absurd (omega int_laws);
        only = λ k there. inl (subst (λ d. in_mempool k d ≡ true) (sym e) there);
      }
  requeue_range-ok (suc n) lo hi w {u} {w'} fits (inl e) h = absurd (omega (arith, e))
  requeue_range-ok (suc n) lo hi w {u} {w'} fits (inr exact) h =
      let (v, w₁, first, rest) =
        >>=-eq-ok (requeue_mempool_from_block env lo) (λ _. requeue_range env n (lo +ℤ pos 1)) w
          h in
      RequeuedRange-cons env lo hi w.database w₁.database w'.database (omega int_laws)
        (requeue_mempool_from_block-ok env lo w inverse first)
        (requeue_range-ok n (lo +ℤ pos 1) hi w₁ (omega int_laws) (inr (omega int_laws)) rest)
