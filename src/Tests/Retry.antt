-- ===== src/Tests/Retry.antt =====
-- The theorems on a height that finds a reorganisation, at a daemon whose blocks have hashes of 32 bytes.
use mathlib.Core.Path.{subst}
use block_ex.Prelude.{ℕ, ◌+◌, ◌≡◌, refl, sym, ap, All, some, [], ◌∷◌, String, length, arith}
use block_ex.Prelude.Int.{pos}
use block_ex.Rpc.{MoneroRpc, GetBlockHeaderByHeightResult, BlockHeader}
use block_ex.World.{Env}
use block_ex.World.Rules.{HasEnded}
use block_ex.Block.{process_job}
use block_ex.Block.Healed.{IsStable, IsLinked}
use block_ex.Block.Retry.{process_job_total}
use block_ex.Reorg.{heal_reorg}
use block_ex.Reorg.Errors.{IsHealError, heal_reorg-FailsBy}
use block_ex.World.Errors.{FailsBy}
use block_ex.Tests.Sample.{env, json, world, daemon, header_at, first_hash, decode-encode}
use block_ex.Tests.Run.{job, ranges}

abbrev hash_of : ℕ → String
hash_of h = first_hash

abbrev chain_at : ℕ → BlockHeader
chain_at h = record (header_at h) { hash = first_hash; prev_hash = first_hash }

abbrev steady : MoneroRpc
steady = record daemon {
  get_block_header_by_height = λ n h. some (record { block_header = chain_at h; status = "OK" });
  get_block_headers_range = λ n start end. some (chain_at start ∷ chain_at (start + 1) ∷ []);
}

abbrev steady_env : Env
steady_env = record env { rpc = steady }

answer-IsLinked :
    (h : ℕ) (res : GetBlockHeaderByHeightResult)
    → record { block_header = chain_at h; status = "OK" } ≡ res
    → (res.block_header.height ≡ h)
      × (res.block_header.hash ≡ hash_of h)
      × IsLinked hash_of res.block_header
answer-IsLinked h res e =
    subst
      (λ (r : GetBlockHeaderByHeightResult).
        (r.block_header.height ≡ h)
        × (r.block_header.hash ≡ hash_of h)
        × IsLinked hash_of r.block_header)
      e (refl, refl, λ k q. refl)

stable : IsStable steady_env hash_of
stable = record {
  single = λ n h res e. answer-IsLinked h res (cc e);
  range = λ n start end l e.
      subst (All (IsLinked hash_of)) (some_injective e) ((λ k q. refl), ((λ k q. refl), tt));
  sized = λ h b e. ap length (sym (some_injective e));
}
  where
    some_injective : {A : Type 0} {x y : A} → some x ≡ some y → x ≡ y
    some_injective e = cc e

-- The stored block 2 is not the daemon's.
process_job_total_example : HasEnded (process_job steady_env json 2 10 (job (pos 3)) ranges world).0
process_job_total_example =
    process_job_total steady_env json decode-encode hash_of stable 10 (job (pos 3)) 2 refl
      (omega arith) 0 ranges world tt

healing-FailsBy : FailsBy (IsHealError (pos 10)) (heal_reorg env (pos 3) (pos 10))
healing-FailsBy = heal_reorg-FailsBy env (pos 10) (pos 3)
