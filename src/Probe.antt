-- ===== src/Probe.antt =====
-- api/src/main.rs, `run_probe`: a request to a running server, and its status line.
pub mod Text
pub mod Status
use Prim.Native.String.{◌++◌ as ◌++ˢ◌}
use text.Mathlib.Text.{◌==◌ as str_eq}
use block_ex.Prelude.{
  ℕ, ◌&&◌, Bool, false, Option, none, some, List, String, Bytes, leb, ltb, if◌then◌else◌,
}
use block_ex.Probe.Text.{first_line, second_word, parse_u16}

pub data ProbeError : Type 0 where
  bad_url : ProbeError
  only_http : ProbeError
  missing_host : ProbeError
  not_connected : ProbeError
  not_written : ProbeError
  not_read : ProbeError
  invalid_response : ProbeError
  invalid_status_line : ProbeError
  bad_number : ProbeError
  status_code : ℕ → ProbeError

pub data Probed {ℓ} (A : Type ℓ) : Type ℓ where
  fine : A → Probed A
  error : ProbeError → Probed A

infixl 5 ◌>>=◌ ◌>>◌
abbrev pub ◌>>=◌ {ℓ κ} : {A : Type ℓ} {B : Type κ} → Probed A → (A → Probed B) → Probed B
fine a >>= f = f a
error e >>= f = error e

abbrev pub ◌>>◌ {ℓ κ} : {A : Type ℓ} {B : Type κ} → Probed A → Probed B → Probed B
m >> k = m >>= λ _. k

-- `.ok_or_else(…)`, and `?` on a call that fails.
abbrev pub or_error {ℓ} : {A : Type ℓ} → ProbeError → Option A → Probed A
or_error e none = error e
or_error e (some a) = fine a

-- The parts of an `http::Uri`, as its accessors give them.
pub record Uri : Type 0 where
  pub scheme_str : Option String
  pub host : Option String
  pub port_u16 : Option ℕ
  pub path_and_query : Option String

-- What the probe calls: the parser of the crate `http`, the socket, of which a write and a read to the
-- end may fail, the printing of a port, and `String::from_utf8_lossy`, as code points.
pub record Net : Type 1 where
  pub Stream : Type 0
  pub parse : String → Option Uri
  pub show : ℕ → String
  pub connect : String → Option Stream
  pub write_all : Stream → String → Option Stream
  pub read_to_end : Stream → Option Bytes
  pub from_utf8_lossy : Bytes → List ℕ

-- `uri.scheme_str() != Some("http")`
unfoldable pub is_http : Option String → Bool
is_http none = false
is_http (some scheme) = str_eq scheme "http"

abbrev or_default {ℓ} : {A : Type ℓ} → A → Option A → A
or_default d none = d
or_default d (some a) = a

unfoldable pub guard : Bool → ProbeError → Probed (Unit {0})
guard b e = if b then fine tt else error e

-- `(200..400).contains(&status)`
unfoldable pub judge : ℕ → Probed (Unit {0})
unfolding guard
judge status = guard (leb 200 status && ltb status 400) (status_code status)

-- What is made of the response.
unfoldable pub check_response : List ℕ → Probed (Unit {0})
check_response response = do
  status_line ← or_error invalid_response (first_line response)
  word ← or_error invalid_status_line (second_word status_line)
  status ← or_error bad_number (parse_u16 word)
  judge status

unfoldable pub address : Net → String → Uri → String
address net host uri = host ++ˢ (":" ++ˢ net.show (or_default 80 uri.port_u16))

unfoldable pub request : String → Uri → String
request host uri =
    "GET "
    ++ˢ (or_default "/" uri.path_and_query
        ++ˢ (" HTTP/1.1\r\nHost: " ++ˢ (host ++ˢ "\r\nConnection: close\r\n\r\n")))

unfoldable pub run_probe : Net → String → Probed (Unit {0})
unfolding guard
run_probe net url = do
  uri ← or_error bad_url (net.parse url)
  guard (is_http uri.scheme_str) only_http
  host ← or_error missing_host uri.host
  stream ← or_error not_connected (net.connect (address net host uri))
  stream' ← or_error not_written (net.write_all stream (request host uri))
  buf ← or_error not_read (net.read_to_end stream')
  check_response (net.from_utf8_lossy buf)
