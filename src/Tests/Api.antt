-- ===== src/Tests/Api.antt =====
-- The theorems on the API at requests: a cache that keeps everything, and the two stored blocks.
use Prim.Native.Char.{char}
use Prim.Native.String.{[] as nil, ◌∷◌ as ◌∷ˢ◌}
use text.Mathlib.Text.{◌==◌ as str_eq}
use text.Mathlib.TextEquality.{eq_iff}
use mathlib.Core.Option
use block_ex.Prelude.{
  ℕ, zero, suc, ◌≤◌, ◌≡◌, refl, ap, inl, inr, false, Bool-cases, Option, none, some, List, [], ◌∷◌,
  String, Bytes, map, keep, length, if◌then◌else◌,
}
use block_ex.Prelude.Int.{ℤ, pos, negsuc}
use block_ex.Prelude.Order.{eq_ℤ}
use block_ex.Prelude.Sorting.{sort_by}
use block_ex.Api.{Env, Cache, AppState}
use block_ex.Api.Models.{Body, RingView}
use block_ex.Api.Queries.{blocks_page, ring_rows}
use block_ex.Api.Routes.{member, ring_sets, search, page_limit}
use block_ex.Api.Router.{Request, serve}
use block_ex.Api.Keys.{IsDecimal, has_code}
use block_ex.Api.Answers.{answer}
use block_ex.Api.Cached.{IsCache, IsCoherent, Serves}
use block_ex.Api.Serve.{serve-Serves}
use block_ex.Api.Paging.{IsPage, blocks_page-IsPage}
use block_ex.Api.Rings.{AreOrdered, set_members, by_ring_index, ring_sets-AreOrdered}
use block_ex.Api.Search.{candidates, first_match, result_or_404, search-eq-first_match}
use block_ex.Tests.Sample.{spell, decode-spell, decode, encode, stored}

abbrev lookup : String → List (String × Bytes) → Option Bytes
lookup k [] = none
lookup k ((j, p) ∷ entries) = let rest = lookup k entries in if str_eq j k then some p else rest

abbrev memory : Cache
memory = record {
  State = List (String × Bytes);
  get = λ n k s. lookup k s;
  setex = λ n k ttl p s. (k, p) ∷ s;
}

memory-IsCache : IsCache memory
unfolding IsCache
memory-IsCache m n j k ttl p q s h = elim (Bool-cases (str_eq j k)) [
  | inl e ↦ inl ((eq_iff j k).0 e, cc (rw e at h))
  | inr e ↦ inr (rw e at h)
]

-- A number is so many letters, and a negative one has another letter before it.
abbrev show : ℤ → String
show (pos n) = spell n nil
show (negsuc n) = char 99 tt ∷ˢ spell n nil

no_colon : (n : ℕ) → has_code 58 (spell n nil) ≡ false
no_colon zero = refl
no_colon (suc n) = no_colon n

bytes_of : ℤ → Bytes
bytes_of (pos n) = n ∷ []
bytes_of (negsuc n) = 0 ∷ n ∷ []

decode-show : (h : ℤ) → decode (show h) ≡ some (bytes_of h)
unfolding bytes_of
decode-show (pos n) = decode-spell n nil [] refl
decode-show (negsuc n) = ap (Option.map (λ (b : Bytes). 0 ∷ b)) (decode-spell n nil [] refl)

bytes_of-injective : (a b : ℤ) → bytes_of a ≡ bytes_of b → a ≡ b
unfolding bytes_of
bytes_of-injective (pos n) (pos m) e = cc e
bytes_of-injective (negsuc n) (negsuc m) e = cc e
bytes_of-injective (pos n) (negsuc m) e = absurd (cc e)
bytes_of-injective (negsuc n) (pos m) e = absurd (cc e)

show-IsDecimal : IsDecimal show
show-IsDecimal = record {
  no_colon = colon;
  injective = λ a b e. bytes_of-injective a b (cc (decode-show a, decode-show b, e));
}
  where
    colon : (h : ℤ) → has_code 58 (show h) ≡ false
    colon (pos n) = no_colon n
    colon (negsuc n) = no_colon n

abbrev written : Body → Bytes
written (Body.blocks l) = 1 ∷ length l ∷ []
written (Body.error e) = []
written _ = 0 ∷ []

abbrev env : Env
env = record {
  faults = λ n. false;
  error_text = λ n. "";
  decode = decode;
  encode = encode;
  extra_text = λ s. s;
  cache = memory;
  to_vec = written;
  sha256_hex = encode;
  show = show;
  parse_i64 = λ s. some (pos 2);
  trim = λ s. s;
}

abbrev state : AppState env
state = record { db = stored; cache = []; statements = 0; commands = 0 }

coherent : IsCoherent env stored []
unfolding IsCoherent
coherent k n q h = absurd (cc h)

abbrev latest : Request
latest = Request.blocks (record { start = none; limit = some (pos 1) })

serve-Serves_example : Serves env (answer env latest) state (serve env latest state)
serve-Serves_example = serve-Serves env latest state memory-IsCache show-IsDecimal refl coherent

blocks_page-IsPage_example :
    IsPage env
      (pos 2)
      (page_limit (some (pos 1)))
      stored
      (blocks_page env (pos 2) (page_limit (some (pos 1))) stored)
    × (length (blocks_page env (pos 2) (page_limit (some (pos 1))) stored) ≤ 200)
blocks_page-IsPage_example = blocks_page-IsPage env (pos 2) (some (pos 1)) stored

abbrev rows : List RingView
rows = ring_rows env (5 ∷ []) stored

ring_sets-AreOrdered_example :
    AreOrdered (ring_sets rows)
    × ((i : ℤ)
        → set_members i (ring_sets rows)
          ≡ sort_by by_ring_index (map member (keep (λ (r : RingView). eq_ℤ r.input_idx i) rows)))
ring_sets-AreOrdered_example = ring_sets-AreOrdered rows

search-eq-first_match_example :
    (search env "2" state).0 ≡ result_or_404 env (first_match env 0 (candidates env "2" stored))
search-eq-first_match_example = search-eq-first_match env "2" state
