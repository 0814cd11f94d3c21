-- ===== src/AppServer.antt =====
-- The protocol of the app server, as the client speaks it: dtu/src/app_server/server.rs. A byte is a
-- number below 256, a `u32` one below 2 ^ 32. The stream, JSON and UTF-8 are a library's: what the
-- stream gives and which of its calls fail are arguments, and so is the reading of an error's JSON.
pub mod Framing
mod Tests
use dtu.Prelude.{
  ℕ, ◌+◌, ◌*◌, ◌/◌, ◌%◌, ◌^◌, Bool, not, ◌||◌, Option, none, some, List, [], ◌∷◌, ◌++◌, ◌==◌,
  if◌then◌else◌, length, is_empty, Text, codes, starts_with_char,
}
use dtu.Hex.{hex_bytes_lower, digit_at, decode_nibble}

pub data ServerError : Type 0 where
  server_error : Text → ServerError
  io invalid_response : ServerError

pub data ServerResult {ℓ} (A : Type ℓ) : Type ℓ where
  ok : A → ServerResult A
  err : ServerError → ServerResult A

-- `|` of parts that share no bit is `+`.
abbrev pub pack : ℕ → ℕ → ℕ → ℕ → ℕ
pack a b c d = a % 256 * 0x100_0000 + b % 256 * 0x1_0000 + c % 256 * 0x100 + d % 256

pub data Command : Type 0 where
  sh provider app_service system_service broadcast start_activity start_service run_test : Command
  system_service_shell_command : Command

unfoldable pub command_code : Command → ℕ
command_code sh = pack b'_' b'_' b's' b'h'
command_code provider = pack b'p' b'r' b'o' b'v'
command_code app_service = pack b'a' b's' b'v' b'c'
command_code system_service = pack b's' b's' b'v' b'c'
command_code broadcast = pack b'b' b'c' b's' b't'
command_code start_activity = pack b'_' b'a' b'c' b't'
command_code start_service = pack b'_' b's' b'v' b'c'
command_code run_test = pack b't' b'e' b's' b't'
command_code system_service_shell_command = pack b's' b's' b'h' b'l'

abbrev pub to_be_bytes : ℕ → List ℕ
to_be_bytes n = n / 0x100_0000 % 256 ∷ n / 0x1_0000 % 256 ∷ n / 0x100 % 256 ∷ n % 256 ∷ []

abbrev pub from_be_bytes : ℕ → ℕ → ℕ → ℕ → ℕ
from_be_bytes a b c d = a * 0x100_0000 + b * 0x1_0000 + c * 0x100 + d

-- The digit for `(payload_len >> shift) & 0xF`.
unfoldable pub len_digit : ℕ → ℕ → ℕ
len_digit payload_len shift = digit_at hex_bytes_lower (payload_len / 2 ^ shift % 16)

abbrev pub len_digits : ℕ → List ℕ
len_digits payload_len =
    len_digit payload_len 28
    ∷ len_digit payload_len 24
    ∷ len_digit payload_len 20
    ∷ len_digit payload_len 16
    ∷ len_digit payload_len 12
    ∷ len_digit payload_len 8
    ∷ len_digit payload_len 4
    ∷ len_digit payload_len 0
    ∷ []

unfoldable pub encode_header : ℕ → ℕ → List ℕ
encode_header cmd payload_len = to_be_bytes cmd ++ len_digits payload_len

-- `u32::from_str_radix` in base 16, on eight bytes at most: a sum cannot overflow. A text that is not
-- UTF-8 holds a byte that is no digit, and both are `InvalidResponse`.
abbrev pub add_digit : ℕ → Option ℕ → Option ℕ
add_digit n none = none
add_digit n (some d) = some (n * 16 + d)

abbrev pub digits_from : Option ℕ → List ℕ → Option ℕ
digits_from none s = none
digits_from (some n) [] = some n
digits_from (some n) (c ∷ s) = digits_from (add_digit n (decode_nibble c)) s

-- A `+` may stand first.
unfoldable pub from_str_radix : List ℕ → Option ℕ
from_str_radix [] = none
from_str_radix (c ∷ s) =
    if c == b'+'
    then (if is_empty s then none else digits_from (some 0) s)
    else digits_from (some 0) (c ∷ s)

pub data Status : Type 0 where
  good fail : Status

unfoldable pub status_from_bytes : ℕ → ℕ → ℕ → ℕ → ServerResult Status
status_from_bytes a b c d =
    let code : ℕ = from_be_bytes a b c d in
    if code == pack b'G' b'O' b'O' b'D'
    then ok good
    else if code == pack b'F' b'A' b'I' b'L'
    then ok fail
    else err invalid_response

-- One exchange: what was written, what comes in until the other side closes the stream, and which calls
-- fail: the write of the header, of the payload, and the reads behind the header.
pub record Stream : Type 0 where
  pub written : List ℕ
  pub incoming : List ℕ
  pub header_fails : Bool
  pub payload_fails : Bool
  pub read_fails : Bool

-- `is_utf8` decides whether bytes are text, `json_err` reads the `err` of a JSON object.
module _ (is_utf8 : List ℕ → Bool) (json_err : Text → Option Text) where
  abbrev pub failure_of : Option Text → ServerResult Text
  failure_of none = err invalid_response
  failure_of (some e) = err (server_error e)

  abbrev pub by_status : Text → Status → ServerResult Text
  by_status received good = ok received
  by_status received fail = failure_of (json_err received)

  -- What comes behind the length is read to the end of the stream.
  abbrev pub read_body : Bool → List ℕ → Option ℕ → Status → ServerResult Text
  read_body fails body none status = err invalid_response
  read_body fails body (some len) status =
      if fails || not (is_utf8 body) then err io else by_status body status

  abbrev pub with_status : ServerResult Status → (Status → ServerResult Text) → ServerResult Text
  with_status (err e) next = err e
  with_status (ok status) next = next status

  -- `read_response`: fewer than twelve bytes are an error of `read_exact`.
  unfoldable pub read_response : Bool → List ℕ → ServerResult Text
  read_response fails (a ∷ b ∷ c ∷ d ∷ l1 ∷ l2 ∷ l3 ∷ l4 ∷ l5 ∷ l6 ∷ l7 ∷ l8 ∷ body) =
      with_status (status_from_bytes a b c d)
        (read_body fails body (from_str_radix (l1 ∷ l2 ∷ l3 ∷ l4 ∷ l5 ∷ l6 ∷ l7 ∷ l8 ∷ [])))
  read_response fails _ = err io

  -- `len as u32` keeps the low 32 bits.
  unfoldable pub send_raw_command_serialized : ℕ → List ℕ → Stream → ServerResult Text × Stream
  send_raw_command_serialized cmd serialized s =
      if s.header_fails
      then (err io, s)
      else let header : List ℕ = encode_header cmd (length serialized % 2 ^ 32) in
        if s.payload_fails then (err io, record s { written = s.written ++ header }) else (
          read_response s.read_fails s.incoming,
          record s { written = s.written ++ (header ++ serialized) },
        )

  unfoldable pub send_command_serialized : Command → List ℕ → Stream → ServerResult Text × Stream
  send_command_serialized cmd serialized s =
      send_raw_command_serialized (command_code cmd) serialized s

pub record ProviderUriBuilder : Type 0 where
  pub authority : Text
  pub path : Option Text
  pub query : Option Text

abbrev pub push_part : ℕ → Option Text → Text
push_part mark none = []
push_part mark (some p) = if not (starts_with_char p mark) then mark ∷ p else p

unfoldable pub build : ProviderUriBuilder → Text
build b = codes "content://" ++ (b.authority ++ (push_part b'/' b.path ++ push_part b'?' b.query))
