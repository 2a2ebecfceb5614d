-- ===== src/Probe/Text.antt =====
-- api/src/main.rs: the methods of texts that `run_probe` uses, on the code points of the text.
use block_ex.Prelude.{
  ℕ, ◌+◌, ◌-◌, ◌*◌, ◌||◌, ◌&&◌, ◌==◌, Bool, true, false, Option, none, some, List, [], ◌∷◌, leb,
  if◌then◌else◌,
}

-- `char::is_whitespace`: the code points with the property White_Space.
unfoldable pub is_whitespace : ℕ → Bool
is_whitespace c =
    (leb 9 c && leb c 13)
    || (c == 32)
    || (c == 0x85)
    || (c == 0xa0)
    || (c == 0x1680)
    || (leb 0x2000 c && leb c 0x200a)
    || (c == 0x2028)
    || (c == 0x2029)
    || (c == 0x202f)
    || (c == 0x205f)
    || (c == 0x3000)

-- What stands before the first newline, and whether there is one.
unfoldable pub before_newline : List ℕ → List ℕ × Bool
before_newline [] = ([], false)
before_newline (c ∷ s) =
    let (l, found) = before_newline s in if c == 10 then ([], true) else (c ∷ l, found)

-- The character before the stripped rest, unless it is a carriage return at the end.
abbrev strip_at : ℕ → List ℕ → List ℕ → List ℕ
strip_at c rest [] = if c == 13 then [] else c ∷ []
strip_at c rest (_ ∷ _) = c ∷ rest

-- A carriage return at the end is taken away.
unfoldable pub strip_cr : List ℕ → List ℕ
strip_cr [] = []
strip_cr (c ∷ s) = strip_at c (strip_cr s) s

abbrev pub line_of : List ℕ × Bool → List ℕ
line_of (l, found) = if found then strip_cr l else l

-- `lines().next()`: a line ends with a newline, or with a carriage return and a newline.
unfoldable pub first_line : List ℕ → Option (List ℕ)
unfolding before_newline strip_cr
first_line [] = none
first_line (c ∷ s) = some (line_of (before_newline (c ∷ s)))

unfoldable pub skip_whitespace : List ℕ → List ℕ
skip_whitespace [] = []
skip_whitespace (c ∷ s) = let rest = skip_whitespace s in if is_whitespace c then rest else c ∷ s

-- The characters up to the first whitespace, and what follows them.
unfoldable pub take_word : List ℕ → List ℕ × List ℕ
take_word [] = ([], [])
take_word (c ∷ s) =
    let (word, rest) = take_word s in if is_whitespace c then ([], c ∷ s) else (c ∷ word, rest)

abbrev word_at : List ℕ → Option (List ℕ × List ℕ)
word_at [] = none
word_at (c ∷ s) = some (take_word (c ∷ s))

-- A step of `split_whitespace`.
unfoldable pub next_word : List ℕ → Option (List ℕ × List ℕ)
unfolding skip_whitespace take_word
next_word s = word_at (skip_whitespace s)

-- `split_whitespace().nth(1)`
unfoldable pub second_word : List ℕ → Option (List ℕ)
second_word s = elim (next_word s) [
  | none ↦ none
  | some (first, rest) ↦ elim (next_word rest) [ none ↦ none | some (word, more) ↦ some word ]
]

-- The digits, with `checked_mul` and `checked_add`.
unfoldable pub parse_digits : ℕ → List ℕ → Option ℕ
parse_digits n [] = some n
parse_digits n (c ∷ s) =
    let m = n * 10 + (c - 48) in
    let rest = parse_digits m s in if (leb 48 c && leb c 57) && leb m 65535 then rest else none

-- `parse::<u16>()`: a sign `+` may stand before the digits, of which there is one at least.
unfoldable pub parse_u16 : List ℕ → Option ℕ
unfolding parse_digits
parse_u16 [] = none
parse_u16 (c ∷ []) = parse_digits 0 (c ∷ [])
parse_u16 (c ∷ d ∷ s) = if c == 43 then parse_digits 0 (d ∷ s) else parse_digits 0 (c ∷ d ∷ s)
