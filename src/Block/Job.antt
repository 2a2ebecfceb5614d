-- ===== src/Block/Job.antt =====
-- What a job of work_block.rs, with its retries after reorganisations, has ended in.
use mathlib.Core.Path.{subst}
use block_ex.Prelude.{ℕ, zero, suc, ◌≡◌, ◌⊎◌, inl, inr, refl, sym, ap, ◌∙◌, Option, none, some}
use block_ex.Prelude.Words.{u64_try_from}
use block_ex.Result.{Result, ok, err, running, reorg_detected}
use block_ex.External.{Json}
use block_ex.Db.{Db}
use block_ex.Rpc.{BlockHeader}
use block_ex.Pipeline.{SchedMsg, BlockMsg}
use block_ex.World.{Env, World}
use block_ex.Header.{HeaderFetcher, Fetched, fetch}
use block_ex.Header.Ranges.{AnswersHeight, fetch-height}
use block_ex.Block.{with_header, retry, process_height, process_job}
use block_ex.Block.Chain.{Continues, IsPassedOn, process_header-ok}

-- The message is the job's, with a header of the job's height that continues the stored chain.
pub record IsBlockOf (env : Env) (job : SchedMsg) (msg : BlockMsg) (d : Db) : Type 0 where
  pub header : BlockHeader
  pub at_height : u64_try_from job.height ≡ some header.height
  pub passed_on : IsPassedOn job header msg
  pub continues : Continues env header d

module _ (env : Env) (json : Json) where
  retry-ok :
      (again : HeaderFetcher → World → Result BlockMsg × HeaderFetcher × World)
      → (x : Result BlockMsg × HeaderFetcher × World)
      → {msg : BlockMsg} {headers' : HeaderFetcher} {w' : World}
      → retry env json again x ≡ (ok msg, headers', w')
      → (x ≡ (ok msg, headers', w')) ⊎ (again x.1 x.2 ≡ (ok msg, headers', w'))
  retry-ok again (ok m, headers, w) h = inl h
  retry-ok again (running, headers, w) h = inl h
  retry-ok again (err reorg_detected, headers, w) h = inr h
  retry-ok again (err e, headers, w) h = inl h

  module _ (answers : AnswersHeight env) where
    with_header-ok :
        (n : ℕ) (job : SchedMsg) (height : ℕ) (headers : HeaderFetcher) (w : World) (f : Fetched)
        → u64_try_from job.height ≡ some height
        → fetch env height headers w ≡ f
        → {msg : BlockMsg} {headers' : HeaderFetcher} {w' : World}
        → with_header env json n job f ≡ (ok msg, headers', w')
        → IsBlockOf env job msg w'.database
    with_header-ok n job height headers w (err e, hs, w₁) at fetched h =
        absurd (cc (ap (λ r. r.0) h))
    with_header-ok n job height headers w (running, hs, w₁) at fetched h =
        absurd (cc (ap (λ r. r.0) h))
    with_header-ok n job height headers w (ok header, hs, w₁) at fetched {msg} {headers'} {w'} h =
        let (same, c, p) =
          process_header-ok env json n job header w₁ {msg = msg} {w' = w'}
            (ap (λ r. (r.0, r.2)) h) in
        record {
          header = header;
          at_height =
              at
              ∙ ap some (sym (fetch-height env answers height headers w (ap (λ r. r.0) fetched)));
          passed_on = p;
          continues = subst (Continues env header) (sym same) c;
        }

    process_height-ok :
        (n : ℕ) (headers : HeaderFetcher) (job : SchedMsg) (w : World) {msg : BlockMsg}
        {headers' : HeaderFetcher} {w' : World}
        → process_height env json n headers job w ≡ (ok msg, headers', w')
        → IsBlockOf env job msg w'.database
    unfolding process_height
    process_height-ok n headers job w {msg} {headers'} {w'} h = go (u64_try_from job.height) refl
      where
        go : (o : Option ℕ) → u64_try_from job.height ≡ o → IsBlockOf env job msg w'.database
        go none e = absurd (cc (ap (λ r. r.0) (rw (e, process_height) at h)))
        go (some height) e =
            with_header-ok n job height headers w (fetch env height headers w) e refl
              (rw (e, process_height) at h)

    -- Where the daemon answers a single request for a height by the header of that height: when a
    -- job ends with a message, after however many reorganisations, then the message is the job's,
    -- its header has the job's height, and the block stored below it is missing or is the one that
    -- the header names.
    pub process_job-ok :
        (fuel n : ℕ) (job : SchedMsg) (headers : HeaderFetcher) (w : World) {msg : BlockMsg}
        {headers' : HeaderFetcher} {w' : World}
        → process_job env json fuel n job headers w ≡ (ok msg, headers', w')
        → IsBlockOf env job msg w'.database
    unfolding process_job
    process_job-ok zero n job headers w h = absurd (cc (ap (λ r. r.0) h))
    process_job-ok (suc fuel) n job headers w h =
        let x = process_height env json n headers job w in
        elim (retry-ok (process_job env json fuel n job) x h) [
          | inl e ↦ process_height-ok n headers job w e
          | inr e ↦ process_job-ok fuel n job x.1 x.2 e
        ]
