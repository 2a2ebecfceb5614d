-- ===== src/Store/Mempool.antt =====
-- store.rs: the loops over the mempool table, `requeue_mempool_from_block` and
-- `evict_mempool_on_inclusion`.
use mathlib.Core.Path.{subst}
use block_ex.Prelude.{
  ◌⊎◌, inl, inr, contains-upsert_only, ℕ, ◌≡◌, ◌≢◌, refl, sym, ap, ◌∙◌, Bool, true, false, not,
  some, List, [], ◌∷◌, map, String, Bytes, bytes_eq, bytes_eq_iff, bytes_eq_refl, arith, ◌&&◌,
  contains, contains-keep, keep, contains-upsert, contains-upsert_self, All,
}
use block_ex.Prelude.Int.{ℤ}
use block_ex.Result.{ok}
use block_ex.Db.{Db, MempoolRow, TxRow}
use block_ex.World.{Env, World, attempt, query, at_now}
use block_ex.World.Laws.{>>=-eq-ok, attempt-ok, query-ok}
use block_ex.Store.{
  eq_opt, drop_mempool, see_mempool, with_decoded, evict_mempool_on_inclusion, requeue_rows,
  requeue_mempool_from_block, tx_hashes_at,
}

abbrev pub in_mempool : Bytes → Db → Bool
in_mempool h d = contains (λ (r : MempoolRow). bytes_eq r.tx_hash h) d.mempool_txs

-- The database apart from its mempool table.
abbrev pub others : Db → Db
others d = record d { mempool_txs = [] }

see_mempool_self : (now : ℕ) (h : Bytes) (d : Db) → in_mempool h (see_mempool now h d) ≡ true
unfolding see_mempool
see_mempool_self now h d =
    contains-upsert_self (λ r. bytes_eq r.tx_hash h) (λ r. record r { last_seen = now }) _
      d.mempool_txs (λ r. refl) (bytes_eq_refl h)

see_mempool_keeps :
    (now : ℕ) (h k : Bytes) (d : Db)
    → in_mempool k d ≡ true
    → in_mempool k (see_mempool now h d) ≡ true
unfolding see_mempool
see_mempool_keeps now h k d =
    contains-upsert (λ r. bytes_eq r.tx_hash k) (λ r. bytes_eq r.tx_hash h)
      (λ r. record r { last_seen = now }) _ d.mempool_txs (λ r. refl)

see_mempool_only :
    (now : ℕ) (h k : Bytes) (d : Db)
    → in_mempool k (see_mempool now h d) ≡ true
    → (in_mempool k d ≡ true) ⊎ (h ≡ k)
unfolding see_mempool
see_mempool_only now h k d there =
    elim (contains-upsert_only (λ (r : MempoolRow). bytes_eq r.tx_hash k)
      (λ r. bytes_eq r.tx_hash h) (λ r. record r { last_seen = now }) _ d.mempool_txs (λ r. refl)
      there) [ inl old ↦ inl old | inr new ↦ inr ((bytes_eq_iff h k).0 new) ]

others-see_mempool : (now : ℕ) (h : Bytes) (d : Db) → others (see_mempool now h d) ≡ others d
unfolding see_mempool
others-see_mempool now h d = refl

module _ (env : Env) where
  -- One of the texts spells the hash.
  abbrev pub IsSpelled : List String → Bytes → Type 0
  IsSpelled [] k = ⊥
  IsSpelled (s ∷ rows) k = (env.decode s ≡ some k) ⊎ IsSpelled rows k

  -- From `d` to `d'` the mempool has grown by the given hashes and no others, and all else is the same.
  pub record Requeued (rows : List String) (d d' : Db) : Type 0 where
    pub same : others d' ≡ others d
    pub kept : (k : Bytes) → in_mempool k d ≡ true → in_mempool k d' ≡ true
    pub added : All (λ s. (k : Bytes) → env.decode s ≡ some k → in_mempool k d' ≡ true) rows
    pub only : (k : Bytes) → in_mempool k d' ≡ true → (in_mempool k d ≡ true) ⊎ IsSpelled rows k

  with_decoded-ok :
      (s : String) (f : Bytes → Db → Db) (d : Db) {d' : Db}
      → with_decoded env s f d ≡ ok d'
      → (k : Bytes) × (env.decode s ≡ some k) × (d' ≡ f k d)
  unfolding with_decoded
  with_decoded-ok s f d h = ground arith

  Requeued-nil : (d d' : Db) → d ≡ d' → Requeued [] d d'
  Requeued-nil d d' e = record {
    same = ap others (sym e);
    kept = λ k h. rw (← e) h;
    added = tt;
    only = λ k h. inl (rw e h);
  }

  -- One more hash, seen before the others.
  Requeued-cons :
      (s : String) (rows : List String) (now : ℕ) (d d₁ d' : Db)
      → with_decoded env s (see_mempool now) d ≡ ok d₁
      → Requeued rows d₁ d'
      → Requeued (s ∷ rows) d d'
  Requeued-cons s rows now d d₁ d' seen more =
      let (h, decoded, e) = with_decoded-ok s (see_mempool now) d seen in
      record {
        same = more.same ∙ ap others e ∙ others-see_mempool now h d;
        kept = λ k old. more.kept k (rw e (see_mempool_keeps now h k d old));
        added = (
          λ k this.
              let same_hash : k ≡ h = cc (this, decoded) in
              more.kept k (rw (e, same_hash) (see_mempool_self now h d)),
          more.added,
        );
        only = λ k there. elim (more.only k there) [
          | inl old ↦ elim (see_mempool_only now h k d (rw e at old)) [
            | inl older ↦ inl older
            | inr this ↦ inr (inl (decoded ∙ ap some this))
          ]
          | inr later ↦ inr (inr later)
        ];
      }

  pub requeue_rows-ok :
      (rows : List String) (w : World) {u : Unit {0}} {w' : World}
      → requeue_rows env rows w ≡ (ok u, w')
      → Requeued rows w.database w'.database
  unfolding requeue_rows
  requeue_rows-ok [] w {u} {w'} h = Requeued-nil w.database w'.database (ap (λ r. r.1.database) h)
  requeue_rows-ok (s ∷ rows) w {u} {w'} h =
      let (v, w₁, first, rest) =
        >>=-eq-ok (at_now (λ now. attempt env (with_decoded env s (see_mempool now))))
          (λ _. requeue_rows env rows) w h in
      Requeued-cons s rows w.now w.database w₁.database w'.database
        (attempt-ok env (with_decoded env s (see_mempool w.now)) w first)
        (requeue_rows-ok rows w₁ rest)

  -- A transaction of the height has the hash.
  abbrev pub HasTx : ℤ → Bytes → Db → Type 0
  HasTx height k d =
      contains (λ (t : TxRow). bytes_eq t.tx_hash k)
        (keep (λ t. eq_opt t.block_height height) d.txs)
      ≡ true

  IsSpelled-contains :
      (ts : List TxRow) (k : Bytes)
      → ((b : Bytes) → env.decode (env.encode b) ≡ some b)
      → IsSpelled (map (λ t. env.encode t.tx_hash) ts) k
      → contains (λ (t : TxRow). bytes_eq t.tx_hash k) ts ≡ true
  unfolding contains
  IsSpelled-contains [] k inverse h = absurd h
  IsSpelled-contains (t ∷ ts) k inverse (inl e) =
      let same : t.tx_hash ≡ k = cc (inverse t.tx_hash, e) in
      rw ((bytes_eq_iff t.tx_hash k).1 same) refl
  IsSpelled-contains (t ∷ ts) k inverse (inr h) = ground (arith, IsSpelled-contains ts k inverse h)

  -- From `d` to `d'` each transaction of the height is in the mempool, which has lost nothing and got
  -- nothing else, and all else is the same. The database decodes what it encodes.
  pub record RequeuedAt (height : ℤ) (d d' : Db) : Type 0 where
    pub same : others d' ≡ others d
    pub kept : (k : Bytes) → in_mempool k d ≡ true → in_mempool k d' ≡ true
    pub added :
        All (λ t. in_mempool t.tx_hash d' ≡ true) (keep (λ t. eq_opt t.block_height height) d.txs)
    pub only : (k : Bytes) → in_mempool k d' ≡ true → (in_mempool k d ≡ true) ⊎ HasTx height k d

  All-decoded :
      (d' : Db) (ts : List TxRow)
      → ((b : Bytes) → env.decode (env.encode b) ≡ some b)
      → All
          (λ s. (k : Bytes) → env.decode s ≡ some k → in_mempool k d' ≡ true)
          (map (λ t. env.encode t.tx_hash) ts)
      → All (λ t. in_mempool t.tx_hash d' ≡ true) ts
  All-decoded d' [] inverse h = tt
  All-decoded d' (t ∷ ts) inverse h =
      (h.0 t.tx_hash (inverse t.tx_hash), All-decoded d' ts inverse h.1)

  RequeuedAt-rows :
      (height : ℤ) (d d₁ d' : Db) (rows : List String)
      → ((b : Bytes) → env.decode (env.encode b) ≡ some b)
      → (tx_hashes_at env height d ≡ rows) × (d₁ ≡ d)
      → Requeued rows d₁ d'
      → RequeuedAt height d d'
  unfolding tx_hashes_at
  RequeuedAt-rows height d d₁ d' rows inverse (listed, e) more = record {
    same = more.same ∙ ap others e;
    kept = λ k old. more.kept k (rw e old);
    added = All-decoded d' _ inverse (rw listed more.added);
    only = λ k there. elim (more.only k there) [
      | inl old ↦ inl (rw e at old)
      | inr new ↦ inr (
          IsSpelled-contains (keep (λ t. eq_opt t.block_height height) d.txs) k inverse
            (subst (λ l. IsSpelled l k) (sym listed) new))
    ];
  }

  -- Where the database decodes what it encodes, a `requeue_mempool_from_block` that succeeds has put
  -- the transactions of the height and no others into the mempool, which has lost nothing, and has
  -- changed nothing else.
  pub requeue_mempool_from_block-ok :
      (height : ℤ) (w : World) {u : Unit {0}} {w' : World}
      → ((b : Bytes) → env.decode (env.encode b) ≡ some b)
      → requeue_mempool_from_block env height w ≡ (ok u, w')
      → RequeuedAt height w.database w'.database
  unfolding requeue_mempool_from_block
  requeue_mempool_from_block-ok height w {u} {w'} inverse h =
      let (rows, w₁, listed, rest) =
        >>=-eq-ok (query env (tx_hashes_at env height)) (requeue_rows env) w h in
      RequeuedAt-rows height w.database w₁.database w'.database rows inverse
        (query-ok env (tx_hashes_at env height) w listed) (requeue_rows-ok rows w₁ rest)

drop_mempool_lem :
    (h k : Bytes) (d : Db)
    → in_mempool k (drop_mempool h d) ≡ (not (bytes_eq k h) && in_mempool k d)
unfolding drop_mempool
drop_mempool_lem h k d =
    contains-keep (λ r. bytes_eq r.tx_hash k) (λ r. not (bytes_eq r.tx_hash h)) (not (bytes_eq k h))
      d.mempool_txs (λ r e. rw ((bytes_eq_iff r.tx_hash k).0 e))

others-drop_mempool : (h : Bytes) (d : Db) → others (drop_mempool h d) ≡ others d
unfolding drop_mempool
others-drop_mempool h d = refl

module _ (env : Env) where
  -- From `d` to `d'` the given hashes have left the mempool, what was not there has not come, what
  -- is none of the hashes stayed, and all else is the same.
  pub record Evicted (hashes : List String) (d d' : Db) : Type 0 where
    pub same : others d' ≡ others d
    pub gone : All (λ s. (k : Bytes) × (env.decode s ≡ some k) × (in_mempool k d' ≡ false)) hashes
    pub absent : (k : Bytes) → in_mempool k d ≡ false → in_mempool k d' ≡ false
    pub stayed :
        (k : Bytes) → All (λ s. env.decode s ≢ some k) hashes → in_mempool k d' ≡ in_mempool k d

  Evicted-nil : (d d' : Db) → d ≡ d' → Evicted [] d d'
  Evicted-nil d d' e = record {
    same = ap others (sym e);
    gone = tt;
    absent = λ k h. rw (← e) h;
    stayed = λ k _. ap (in_mempool k) (sym e);
  }

  Evicted-cons :
      (s : String) (hashes : List String) (d d₁ d' : Db)
      → with_decoded env s drop_mempool d ≡ ok d₁
      → Evicted hashes d₁ d'
      → Evicted (s ∷ hashes) d d'
  Evicted-cons s hashes d d₁ d' dropped more =
      let (h, decoded, e) = with_decoded-ok env s drop_mempool d dropped in
      record {
        same = more.same ∙ ap others e ∙ others-drop_mempool h d;
        gone = (
          (
            h,
            decoded,
            more.absent h (rw e (ground (arith, drop_mempool_lem h h d, bytes_eq_refl h))),
          ),
          more.gone,
        );
        absent = λ k h₀. more.absent k (rw e (ground (arith, drop_mempool_lem h k d)));
        stayed = λ k others₀.
            more.stayed k others₀.1
            ∙ ap (in_mempool k) e
            ∙ ground (
              arith,
              drop_mempool_lem h k d,
              (bytes_eq_iff k h).0,
              λ (q : k ≡ h). others₀.0 (decoded ∙ ap some (sym q)),
            );
      }

  -- When `evict_mempool_on_inclusion` succeeds, its hashes have left the mempool, no others have left
  -- or come, and all else is the same.
  pub evict_mempool_on_inclusion-ok :
      (hashes : List String) (w : World) {u : Unit {0}} {w' : World}
      → evict_mempool_on_inclusion env hashes w ≡ (ok u, w')
      → Evicted hashes w.database w'.database
  unfolding evict_mempool_on_inclusion
  evict_mempool_on_inclusion-ok [] w {u} {w'} h =
      Evicted-nil w.database w'.database (ap (λ r. r.1.database) h)
  evict_mempool_on_inclusion-ok (s ∷ hashes) w {u} {w'} h =
      let (v, w₁, first, rest) =
        >>=-eq-ok (attempt env (with_decoded env s drop_mempool))
          (λ _. evict_mempool_on_inclusion env hashes) w h in
      Evicted-cons s hashes w.database w₁.database w'.database
        (attempt-ok env (with_decoded env s drop_mempool) w first)
        (evict_mempool_on_inclusion-ok hashes w₁ rest)
