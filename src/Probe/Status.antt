-- ===== src/Probe/Status.antt =====
-- api/src/main.rs: the verdict of the probe on a status line.
use block_ex.Prelude.{
  ℕ, ◌+◌, ◌-◌, ◌*◌, ◌≤◌, ◌≡◌, ◌≢◌, ◌&&◌, true, false, List, [], ◌∷◌, ◌++◌, All, leb, ltb,
  if◌then◌else◌,
}
use block_ex.Probe.Text.{is_whitespace, before_newline, line_of}
use block_ex.Probe.{
  Probed, fine, error, bad_number, invalid_response, invalid_status_line, status_code,
}

abbrev pub IsPrinting : ℕ → Type 0
IsPrinting c = is_whitespace c ≡ false

abbrev pub IsDigit : ℕ → Type 0
IsDigit c = (48 ≤ c) × (c ≤ 57)

-- The text is at its end, or goes on with whitespace.
abbrev pub StartsWhite : List ℕ → Type 0
StartsWhite [] = Unit
StartsWhite (c ∷ s) = is_whitespace c ≡ true

-- The number that the digits spell, behind `n`.
abbrev pub value : ℕ → List ℕ → ℕ
value n [] = n
value n (c ∷ s) = value (n * 10 + (c - 48)) s

-- No part of a line's end.
abbrev IsInLine : ℕ → Type 0
IsInLine c = (c ≢ 10) × (c ≢ 13)

-- What is left of the text behind the digits in the first line.
abbrev line_end : List ℕ → List ℕ
line_end t = line_of (before_newline t)

-- What the probe makes of a number behind the first word.
abbrev pub verdict : ℕ → Probed (Unit {0})
verdict n =
    if ltb n 65536
    then (if leb 200 n && ltb n 400 then fine tt else error (status_code n))
    else error bad_number

-- A response whose first line is a word, a space, digits and then nothing or whitespace.
abbrev pub response_of : List ℕ → List ℕ → List ℕ → List ℕ
response_of word digits more = word ++ 32 ∷ (digits ++ more)

-- No number starts with the character.
abbrev pub StartsNone : ℕ → Type 0
StartsNone d = (leb 48 d && leb d 57 ≡ false) × (d ≢ 43)

-- What a server may answer: nothing, a first line of one word, or one of a word, a space and a second
-- word, which spells a number or starts with no part of one, and then nothing or whitespace.
pub data Answer : Type 0 where
  nothing : Answer
  one_word : ℕ → List ℕ → List ℕ → Answer
  worded : ℕ → List ℕ → ℕ → List ℕ → List ℕ → Answer
  numbered : ℕ → List ℕ → ℕ → List ℕ → List ℕ → Answer

abbrev pub text_of : Answer → List ℕ
text_of nothing = []
text_of (one_word c w rest) = c ∷ (w ++ 10 ∷ rest)
text_of (worded c w d ds more) = response_of (c ∷ w) (d ∷ ds) more
text_of (numbered c w d ds more) = response_of (c ∷ w) (d ∷ ds) more

abbrev pub IsAnswer : Answer → Type 0
IsAnswer nothing = Unit
IsAnswer (one_word c w rest) = All IsPrinting (c ∷ w)
IsAnswer (worded c w d ds more) =
    All IsPrinting (c ∷ w) × All IsPrinting (d ∷ ds) × StartsWhite more × StartsNone d
IsAnswer (numbered c w d ds more) = All IsPrinting (c ∷ w) × All IsDigit (d ∷ ds) × StartsWhite more

abbrev pub verdict_of : Answer → Probed (Unit {0})
verdict_of nothing = error invalid_response
verdict_of (one_word c w rest) = error invalid_status_line
verdict_of (worded c w d ds more) = error bad_number
verdict_of (numbered c w d ds more) = verdict (value 0 (d ∷ ds))
