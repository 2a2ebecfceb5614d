-- ===== src/Block/Retry.antt =====
-- work_block.rs: the inner loop of `run`, which starts a height anew after each reorganisation.
use mathlib.Core.Path.{subst}
use block_ex.Prelude.{
  ℕ, suc, ◌^◌, ◌<◌, ◌≡◌, refl, sym, ap, ◌∙◌, none, some, String, Bytes, All, All-unit,
}
use block_ex.Prelude.Int.{pos, ◌-ℤ◌}
use block_ex.Prelude.Words.{as_i64, u64_try_from}
use block_ex.Result.{Result, ok, err, running, reorg_detected}
use block_ex.External.{Json}
use block_ex.Rpc.{BlockHeader}
use block_ex.Pipeline.{SchedMsg, BlockMsg}
use block_ex.World.{Env, World, M, continue, ◌>>=◌}
use block_ex.World.Rules.{HasEnded, Ends, ending}
use block_ex.World.Errors.{FailsIn, FailsBy, failing}
use block_ex.Store.{hash_at}
use block_ex.Header.{HeaderFetcher, Fetched, fetch}
use block_ex.Header.Ranges.{fetch-height}
use block_ex.Header.Sources.{Gives, Answers, fetch-Gives}
use block_ex.Block.{
  check_prev, fetch_block_json, process_header, with_header, retry, process_height, process_job,
}
use block_ex.Block.Healed.{
  IsLinked, IsStable, NotReorg, check_prev-detects, check_prev-none, check_prev-Ends, nothing_below,
  below_start,
}

-- The result of a round is one that the loop is left with.
abbrev IsLast : Result BlockMsg → Type 0
IsLast r = HasEnded r × FailsIn NotReorg r

bind-detects {ℓ} :
    {A B : Type ℓ} (m : M A) (f : A → M B) (w : World) {w' : World}
    → ((a : A) → FailsBy NotReorg (f a))
    → (m >>= f) w ≡ (err reorg_detected, w')
    → m w ≡ (err reorg_detected, w')
bind-detects {A} {B} m f w {w'} k h = go (m w) refl h
  where
    go :
        (x : Result A × World)
        → m w ≡ x
        → continue x.0 f x.1 ≡ (err reorg_detected, w')
        → m w ≡ (err reorg_detected, w')
    go (err e, w₁) p q =
        let same : e ≡ reorg_detected = cc (ap (λ (r : Result B × World). r.0) q) in
        let then' : w₁ ≡ w' = ap (λ (r : Result B × World). r.1) q in
        p ∙ (λ i. (err (same i), then' i))
    go (ok a, w₁) p q =
        absurd (subst (FailsIn NotReorg) (ap (λ (r : Result B × World). r.0) q) ((k a).at w₁))
    go (running, w₁) p q = absurd (cc (ap (λ (r : Result B × World). r.0) q))

module _ (env : Env) (json : Json) where
  fetch_block_json-FailsBy : (header : BlockHeader) → FailsBy NotReorg (fetch_block_json env header)
  unfolding fetch_block_json
  fetch_block_json-FailsBy header = search failing

  fetch_block_json-Ends : (header : BlockHeader) → Ends (fetch_block_json env header)
  unfolding fetch_block_json
  fetch_block_json-Ends header = search ending

  process_header-detects :
      (n : ℕ) (job : SchedMsg) (header : BlockHeader) (w : World) {w' : World}
      → process_header env json n job header w ≡ (err reorg_detected, w')
      → check_prev env n header w ≡ (err reorg_detected, w')
  unfolding process_header
  process_header-detects n job header w h =
      bind-detects (check_prev env n header) _ w (λ u. search (failing, fetch_block_json-FailsBy)) h

  process_header-Ends :
      (n : ℕ) (job : SchedMsg) (header : BlockHeader) → Ends (process_header env json n job header)
  unfolding process_header
  process_header-Ends n job header = search (ending, check_prev-Ends, fetch_block_json-Ends)

  -- Where no block is stored below the header, the result is the last.
  process_header-IsLast :
      (n : ℕ) (job : SchedMsg) (header : BlockHeader) (w : World)
      → hash_at (as_i64 header.height -ℤ pos 1) w.database ≡ none
      → IsLast (process_header env json n job header w).0
  process_header-IsLast n job header w gone =
      ((process_header-Ends n job header).at w, go (process_header env json n job header w) refl)
    where
      go :
          (x : Result BlockMsg × World)
          → process_header env json n job header w ≡ x
          → FailsIn NotReorg (process_header env json n job header w).0
      go (ok m, w₁) e = rw e tt
      go (running, w₁) e = rw e tt
      go (err reorg_detected, w₁) e = absurd (
          subst (FailsIn NotReorg)
            (ap (λ (r : Result (Unit {0}) × World). r.0) (process_header-detects n job header w e))
            (check_prev-none env n header w gone))
      go (err q, w₁) e = rw e tt

  height_of :
      (job : SchedMsg) (k : ℕ) → job.height ≡ pos (suc k) → u64_try_from job.height ≡ some (suc k)
  unfolding u64_try_from
  height_of job k e = rw e refl

  module _ (inverse : (b : Bytes) → env.decode (env.encode b) ≡ some b) (hash_of : ℕ → String)
      (stable : IsStable env hash_of) (n : ℕ) (job : SchedMsg) (k : ℕ)
      (at_height : job.height ≡ pos (suc k)) (small : suc k < 2 ^ 63) where
    answers : Answers (IsLinked hash_of) env
    answers = record { single = λ m h res e. (stable.single m h res e).2; range = stable.range }

    -- A fetch for the job's height returns a header of it.
    header_height :
        (headers : HeaderFetcher) (w : World) {header : BlockHeader} {hs : HeaderFetcher}
        {w₁ : World}
        → fetch env (suc k) headers w ≡ (ok header, hs, w₁)
        → header.height ≡ suc k
    header_height headers w e =
        fetch-height env (λ m h res q. (stable.single m h res q).0) (suc k) headers w
          (ap (λ (r : Fetched). r.0) e)

    any_source : Answers (λ _. Unit {0}) env
    any_source = record { single = λ m h res e. tt; range = λ m a b l e. All-unit l }

    process_height-IsLast :
        (headers : HeaderFetcher) (w : World)
        → hash_at (pos k) w.database ≡ none
        → IsLast (process_height env json n headers job w).0
    unfolding process_height
    process_height-IsLast headers w gone =
        rw (height_of job k at_height, process_height)
          (go (fetch env (suc k) headers w) refl (
            fetch-Gives (λ _. Unit {0}) env any_source (suc k) headers w
              (All-unit headers.buffered)))
      where
        go :
            (f : Fetched)
            → fetch env (suc k) headers w ≡ f
            → Gives (λ _. Unit {0}) w.database f.0 f.2
            → IsLast (with_header env json n job f).0
        go (ok header, hs, w₁) e g = process_header-IsLast n job header w₁ (
            ap (λ (h : ℕ). hash_at (as_i64 h -ℤ pos 1) w₁.database) (header_height headers w e)
            ∙ ap (λ x. hash_at x w₁.database) (below_start env n k small)
            ∙ ap (hash_at (pos k)) g.1
            ∙ gone)
        go (err x, hs, w₁) e g = subst (λ y. IsLast (err y)) (sym g.0) (tt, tt)
        go (running, hs, w₁) e g = absurd g

    -- A round that finds a reorganisation leaves no block just below the height, and each ends.
    first_round :
        (headers : HeaderFetcher) (w : World)
        → All (IsLinked hash_of) headers.buffered
        → HasEnded (process_height env json n headers job w).0
          × ((hs : HeaderFetcher) (w' : World)
              → process_height env json n headers job w ≡ (err reorg_detected, hs, w')
              → hash_at (pos k) w'.database ≡ none)
    unfolding process_height
    first_round headers w linked =
        rw (height_of job k at_height, process_height)
          (go (fetch env (suc k) headers w) refl
            (fetch-Gives (IsLinked hash_of) env answers (suc k) headers w linked))
      where
        go :
            (f : Fetched)
            → fetch env (suc k) headers w ≡ f
            → Gives (IsLinked hash_of) w.database f.0 f.2
            → HasEnded (with_header env json n job f).0
              × ((hs : HeaderFetcher) (w' : World)
                  → with_header env json n job f ≡ (err reorg_detected, hs, w')
                  → hash_at (pos k) w'.database ≡ none)
        go (ok header, hs, w₁) e g = (
          (process_header-Ends n job header).at w₁,
          λ hs' w' q.
              nothing_below env n inverse hash_of stable header k w₁ w' (header_height headers w e)
                small (g.0 k (header_height headers w e))
                (check_prev-detects env n header w₁ (
                  process_header-detects n job header w₁
                    (ap (λ (r : Result BlockMsg × HeaderFetcher × World). (r.0, r.2)) q))),
        )
        go (err x, hs, w₁) e g = (
          tt,
          λ hs' w' q.
              let same : x ≡ reorg_detected =
                cc (ap (λ (r : Result BlockMsg × HeaderFetcher × World). r.0) q) in
              absurd (cc (sym g.0 ∙ same)),
        )
        go (running, hs, w₁) e g = absurd g

    -- Where the daemon's chain does not change, the database decodes what it encodes and the headers in
    -- the buffer are linked as the daemon's: two rounds are enough for a height above 0. After one
    -- healing the height is passed on or fails with an error, whichever statements and calls fail.
    pub process_job_total :
        (fuel : ℕ) (headers : HeaderFetcher) (w : World)
        → All (IsLinked hash_of) headers.buffered
        → HasEnded (process_job env json (suc (suc fuel)) n job headers w).0
    unfolding process_job
    process_job_total fuel headers w linked =
        let (ends, gone) = first_round headers w linked in
        retried (process_height env json n headers job w) ends gone
      where
        -- A second round is the last.
        settled :
            (again : HeaderFetcher → World → Result BlockMsg × HeaderFetcher × World)
            (x : Result BlockMsg × HeaderFetcher × World)
            → IsLast x.0
            → HasEnded (retry env json again x).0
        settled again (ok m, hs, w') l = tt
        settled again (running, hs, w') l = l.0
        settled again (err reorg_detected, hs, w') l = absurd l.1
        settled again (err e, hs, w') l = tt

        retried :
            (x : Result BlockMsg × HeaderFetcher × World)
            → HasEnded x.0
            → ((hs : HeaderFetcher) (w' : World)
                → x ≡ (err reorg_detected, hs, w')
                → hash_at (pos k) w'.database ≡ none)
            → HasEnded (retry env json (process_job env json (suc fuel) n job) x).0
        retried (ok m, hs, w') ends gone = tt
        retried (running, hs, w') ends gone = ends
        retried (err reorg_detected, hs, w') ends gone =
            settled (process_job env json fuel n job) (process_height env json n hs job w')
              (process_height-IsLast hs w' (gone hs w' refl))
        retried (err e, hs, w') ends gone = tt
