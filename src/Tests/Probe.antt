-- ===== src/Tests/Probe.antt =====
-- The probe at a server that answers, and at responses that are no status line.
use block_ex.Prelude.{ℕ, ◌≡◌, refl, none, some, List, [], ◌∷◌, String, Bytes}
use Prim.Native.String.{[] as nil, ◌∷◌ as ◌∷ˢ◌}
use Prim.Native.Char.{code}
use block_ex.Probe.{error, invalid_response, invalid_status_line, Uri, Net, check_response}
use block_ex.Probe.Text.{
  first_line, second_word, parse_u16, next_word, skip_whitespace, take_word, is_whitespace,
}
use block_ex.Probe.Status.{response_of}

abbrev codes : String → List ℕ
codes nil = []
codes (c ∷ˢ s) = code c ∷ codes s

-- `HTTP`, `204` and what follows them.
abbrev response : Bytes
response = response_of (codes "HTTP") (codes "204") (codes " No Content\r\nServer: x\r\n\r\n")

abbrev target : Uri
target = record {
  scheme_str = some "http";
  host = some "api";
  port_u16 = some 8081;
  path_and_query = some "/healthz";
}

abbrev net : Net
net = record {
  Stream = Unit {0};
  parse = λ url. some target;
  show = λ n. "8081";
  connect = λ addr. some tt;
  write_all = λ s text. some tt;
  read_to_end = λ s. some response;
  from_utf8_lossy = λ b. b;
}

empty_response : check_response [] ≡ error invalid_response
unfolding check_response first_line
empty_response = refl

one_word : check_response (codes "HTTP\n200") ≡ error invalid_status_line
unfolding check_response first_line second_word next_word skip_whitespace take_word is_whitespace
one_word = refl

signs :
    (parse_u16 (codes "+") ≡ none)
    × (parse_u16 (codes "+7") ≡ some 7)
    × (parse_u16 (codes "-7") ≡ none)
    × (parse_u16 (codes "65536") ≡ none)
unfolding parse_u16
signs = (refl, refl, refl, refl)
