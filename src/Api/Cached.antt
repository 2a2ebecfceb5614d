-- ===== src/Api/Cached.antt =====
-- api/src/routes.rs and util.rs: what a handler replies with its cache, against what it would reply
-- without one.
use block_ex.Prelude.{
  ℕ, ◌+◌, ◌≡◌, ◌⊎◌, inl, inr, refl, sym, Option, none, some, String, Bytes, Bool-cases,
  Option-cases,
}
use block_ex.Db.{Db}
use block_ex.Api.{
  Env, Cache, AppState, Handler, Response, json_ok, json_err, cached_json, cached_response,
  unless_cached, statement, db_error, reply, make_json_response,
}
use block_ex.Api.Models.{Body}
use block_ex.Api.Keys.{Key, key_text, key_text-injective, IsDecimal}
use block_ex.Api.Answers.{data_of, answer_of}

-- An entry that is found was stored under its key, last before or earlier.
unfoldable pub IsCache : Cache → Type 0
IsCache c =
    (m n : ℕ) (j k : String) (ttl : ℕ) (p q : Bytes) (s : c.State)
    → c.get n k (c.setex m j ttl p s) ≡ some q
    → ((j ≡ k) × (p ≡ q)) ⊎ (c.get n k s ≡ some q)

module _ (env : Env) where
  -- What the cache has for a key is what the database gives for it.
  unfoldable pub IsCoherent : Db → env.cache.State → Type 0
  IsCoherent d c =
      (k : Key) (n : ℕ) (q : Bytes)
      → env.cache.get n (key_text env k) c ≡ some q
      → (b : Body) × (data_of env k d ≡ some b) × (q ≡ env.to_vec b)

  -- A reply is as without a cache, or a failure; the cache stays coherent, and the database as it is.
  pub record Serves (answer : Db → Response) (s : AppState env) (r : Response × AppState env)
      : Type 0 where
    pub reply : (r.0 ≡ answer s.db) ⊎ (r.0.status ≡ 500)
    pub coherent : IsCoherent r.1.db r.1.cache
    pub same : r.1.db ≡ s.db

  module _ (answer : Db → Response) where
    pub reply-Serves :
        (s : AppState env) (r : Response)
        → r ≡ answer s.db
        → IsCoherent s.db s.cache
        → Serves answer s (reply env r s)
    reply-Serves s r e c = record { reply = inl e; coherent = c; same = refl }

    failed-Serves :
        (s : AppState env) (e : String)
        → IsCoherent s.db s.cache
        → Serves answer s (db_error env e s)
    unfolding json_err make_json_response
    failed-Serves s e c = record { reply = inr refl; coherent = c; same = refl }

    pub statement-Serves {ℓ} :
        {A : Type ℓ} (f : Db → Option A) (rest : A → Handler env) (s : AppState env)
        → IsCoherent s.db s.cache
        → ((x : A) (s' : AppState env)
            → f s.db ≡ some x
            → s'.db ≡ s.db
            → IsCoherent s'.db s'.cache
            → Serves answer s' (rest x s'))
        → Serves answer s (statement env f rest (db_error env) s)
    unfolding statement
    statement-Serves f rest s c go = elim (Bool-cases (env.faults s.statements)) [
      | inl e ↦ rw e (again (failed-Serves s' (env.error_text s.statements) c))
      | inr e ↦ rw e (elim (Option-cases (f s.db)) [
        | inl none_there ↦ rw none_there (again (failed-Serves s' (env.error_text s.statements) c))
        | inr (x, there) ↦ rw there (again (go x s' there refl c))
      ])
    ]
      where
        s' : AppState env
        s' = record s { statements = s.statements + 1 }

        again : {r : Response × AppState env} → Serves answer s' r → Serves answer s r
        again v = record { reply = v.reply; coherent = v.coherent; same = v.same }

  module _ (is_cache : IsCache env.cache) (decimal : IsDecimal env.show) (k : Key) where
    pub cached_json-Serves :
        (body : Body) (ttl : ℕ) (s : AppState env)
        → data_of env k s.db ≡ some body
        → IsCoherent s.db s.cache
        → Serves (answer_of env k) s (cached_json env (key_text env k) body ttl s)
    unfolding cached_json json_ok IsCoherent IsCache
    cached_json-Serves body ttl s e c = record {
      reply = inl (rw e refl);
      coherent = λ j n q got.
          elim (is_cache s.commands n (key_text env k) (key_text env j) ttl (env.to_vec body) q
            s.cache got) [
              | inl (same, payload) ↦
                  (body, rw (sym (key_text-injective env decimal k j same)) e, sym payload)
              | inr there ↦ c j n q there
            ];
      same = refl;
    }

    abbrev after_get : AppState env → AppState env
    after_get s = record s { commands = s.commands + 1 }

    missed :
        (s : AppState env)
        → env.cache.get s.commands (key_text env k) s.cache ≡ none
        → cached_response env (key_text env k) s ≡ (none, after_get s)
    unfolding cached_response
    missed s e = rw (e, cached_response) refl

    hit :
        (s : AppState env) {q : Bytes}
        → env.cache.get s.commands (key_text env k) s.cache ≡ some q
        → cached_response env (key_text env k) s
          ≡ (some (make_json_response env q 200), after_get s)
    unfolding cached_response
    hit s e = rw (e, cached_response) refl

    pub unless_cached-Serves :
        (rest : Handler env) (s : AppState env)
        → IsCoherent s.db s.cache
        → ((s' : AppState env)
            → s'.db ≡ s.db
            → IsCoherent s'.db s'.cache
            → Serves (answer_of env k) s' (rest s'))
        → Serves (answer_of env k) s (unless_cached env (key_text env k) rest s)
    unfolding unless_cached IsCoherent json_ok
    unless_cached-Serves rest s c go =
        elim (Option-cases (env.cache.get s.commands (key_text env k) s.cache)) [
          | inl none_there ↦ rw (missed s none_there) (again (go s' refl c))
          | inr (q, found) ↦
              let (b, there, payload) = c k s.commands q found in
              rw (hit s found, payload)
                (record { reply = inl (rw there refl); coherent = c; same = refl })
        ]
      where
        s' : AppState env
        s' = after_get s

        again :
            {r : Response × AppState env}
            → Serves (answer_of env k) s' r
            → Serves (answer_of env k) s r
        again v = record { reply = v.reply; coherent = v.coherent; same = v.same }
