-- ===== src/Api/Search.antt =====
-- api/src/routes.rs, `search`: what a text is found as.
use block_ex.Prelude.{
  ℕ, ◌+◌, ◌≡◌, inl, inr, refl, ◌&&◌, Bool, false, not, Option, none, some, List, [], ◌∷◌, ◌++◌,
  String, Bool-cases, Option-cases, bytes_eq, contains, if◌then◌else◌,
}
use block_ex.Prelude.Int.{ℤ}
use block_ex.Prelude.Order.{eq_ℤ}
use block_ex.Db.{Db}
use block_ex.Api.{Env, AppState, Handler, Response, json_ok, json_err, statement, is_hex_64}
use block_ex.Api.Models.{Body, SearchResult, Found, text, number}
use block_ex.Api.Queries.{opt_is}
use block_ex.Api.Routes.{on_decoded, if_row, found, search_number, search}

-- What a text may be found as, with whether the tables have it, the first choice first.
abbrev Candidates : Type 0
Candidates = List (Bool × SearchResult)

abbrev is_true : Option Bool → Bool
is_true none = false
is_true (some b) = b

module _ (env : Env) where
  abbrev hash_candidates : String → Db → Candidates
  hash_candidates s d =
      (
        is_true (on_decoded env s (λ h d. contains (λ t. bytes_eq t.tx_hash h) d.txs) d),
        record { kind = "tx"; value = text s },
      )
      ∷ (
        is_true (on_decoded env s (λ h d. contains (λ b. bytes_eq b.hash h) d.blocks) d),
        record { kind = "block"; value = text s },
      )
      ∷ (
        is_true (on_decoded env s (λ h d. contains (λ i. bytes_eq i.key_image h) d.tx_inputs) d),
        record { kind = "key_image"; value = text s },
      )
      ∷ []

  abbrev number_candidates : Option ℤ → Db → Candidates
  number_candidates none d = []
  number_candidates (some h) d =
      (contains (λ b. eq_ℤ b.height h) d.blocks, record { kind = "height"; value = number h })
      ∷ (
        contains (λ o. opt_is o.global_index h) d.outputs,
        record { kind = "global_index"; value = number h },
      )
      ∷ []

  -- A text of 64 hexadecimal digits may be a hash, and one that is read as a number a height or an index.
  unfoldable pub candidates : String → Db → Candidates
  candidates s d =
      (if is_hex_64 s then hash_candidates s d else []) ++ number_candidates (env.parse_i64 s) d

  -- The first candidate that the tables have, where the n-th statement asks for the first of them: one
  -- whose statement fails is passed over.
  unfoldable pub first_match : ℕ → Candidates → Option SearchResult
  first_match n [] = none
  first_match n ((there, r) ∷ cs) =
      let rest = first_match (n + 1) cs in if not (env.faults n) && there then some r else rest

  abbrev pub result_or_404 : Option SearchResult → Response
  result_or_404 none = json_err env 404 "no match"
  result_or_404 (some r) = json_ok env (Body.search r)

  -- A handler that goes through candidates.
  record Tries (cs : Db → Candidates) (h : Handler env) : Type 0 where
    at : (s : AppState env) → (h s).0 ≡ result_or_404 (first_match s.statements (cs s.db))

  if_row-Tries :
      (test : Db → Option Bool) (kind : String) (value : Found) (cs : Db → Candidates)
      (miss : Handler env)
      → Tries cs miss
      → Tries
          (λ d. (is_true (test d), record { kind = kind; value = value }) ∷ cs d)
          (if_row env test (found env kind value) miss)
  unfolding if_row found statement first_match
  if_row-Tries test kind value cs miss t = record {
    at = λ s. elim (Bool-cases (env.faults s.statements)) [
      | inl e ↦ rw e (t.at (after s))
      | inr e ↦ elim (Option-cases (test s.db)) [
        | inl none_there ↦ rw (e, none_there) (t.at (after s))
        | inr (b, there) ↦ elim (Bool-cases b) [
          | inl f ↦ rw (e, there, f) refl
          | inr f ↦ rw (e, there, f) (t.at (after s))
        ]
      ]
    ];
  }
    where
      after : AppState env → AppState env
      after s = record s { statements = s.statements + 1 }

  search_number-Tries : (o : Option ℤ) → Tries (number_candidates o) (search_number env o)
  unfolding search_number first_match
  search_number-Tries none = record { at = λ s. refl }
  search_number-Tries (some h) =
      if_row-Tries _ "height" (number h) _ _
        (if_row-Tries _ "global_index" (number h) (λ d. []) _ (record { at = λ s. refl }))

  -- A search replies with the first candidate that the tables have, and with 404 where they have none; a
  -- candidate whose statement fails is passed over.
  pub search-eq-first_match :
      (q : String) (s : AppState env)
      → (search env q s).0 ≡ result_or_404 (first_match s.statements (candidates (env.trim q) s.db))
  unfolding search candidates is_hex_64
  search-eq-first_match q s = elim (Bool-cases (is_hex_64 (env.trim q))) [
    | inl e ↦ rw e (
        (if_row-Tries _ "tx" (text (env.trim q)) _ _ (
            if_row-Tries _ "block" (text (env.trim q)) _ _ (
              if_row-Tries _ "key_image" (text (env.trim q)) _ _
                (search_number-Tries (env.parse_i64 (env.trim q)))))).at
          s)
    | inr e ↦ rw e ((search_number-Tries (env.parse_i64 (env.trim q))).at s)
  ]
