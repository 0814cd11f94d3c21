-- ===== src/AppServer/Framing.antt =====
-- The framing of requests and responses.
use dtu.Prelude.{
  ℕ, ◌+◌, ◌*◌, ◌/◌, ◌%◌, ◌^◌, ◌<◌, ◌≡◌, refl, ap, ap₂, ◌∙◌, inl, inr, Bool, true, false, Option,
  none, some, List, [], ◌∷◌, ◌++◌, arith, ◌==◌, ==_iff, Bool-cases, length, Text,
}
use dtu.Hex.{decode_nibble}
use dtu.Hex.RoundTrip.{decode_nibble-digit_at}
use dtu.AppServer.{
  ok, Command, command_code, from_be_bytes, len_digit, len_digits, encode_header, add_digit,
  digits_from, from_str_radix, Status, status_from_bytes, Stream, by_status, read_response,
  send_raw_command_serialized, send_command_serialized, sh, provider, app_service, system_service,
  broadcast, start_activity, start_service, run_test, system_service_shell_command,
}

-- How the other side reads a request's header: the command, and the length of the payload.
abbrev pub decoded : ℕ → Option ℕ → Option (ℕ × ℕ)
decoded cmd none = none
decoded cmd (some len) = some (cmd, len)

unfoldable pub decode_header : List ℕ → Option (ℕ × ℕ)
decode_header (a ∷ b ∷ c ∷ d ∷ digits) = decoded (from_be_bytes a b c d) (from_str_radix digits)
decode_header _ = none

len_digit_lem : (len shift : ℕ) → decode_nibble (len_digit len shift) ≡ some (len / 2 ^ shift % 16)
unfolding len_digit
len_digit_lem len shift = (decode_nibble-digit_at (len / 2 ^ shift % 16) (omega arith)).0

-- No digit is the sign.
len_digit_sign : (len shift : ℕ) → (len_digit len shift == b'+') ≡ false
unfolding decode_nibble
len_digit_sign len shift = elim (Bool-cases (len_digit len shift == b'+')) [
  | inl e ↦
      let sign : len_digit len shift ≡ b'+' = (==_iff _ b'+').0 e in
      let nothing : decode_nibble b'+' ≡ none = refl in
      absurd (cc (sign, nothing, len_digit_lem len shift))
  | inr e ↦ e
]

digits_from_lem :
    (n len shift : ℕ) (s : List ℕ)
    → digits_from (some n) (len_digit len shift ∷ s)
      ≡ digits_from (some (n * 16 + len / 2 ^ shift % 16)) s
digits_from_lem n len shift s =
    ap (λ (d : Option ℕ). digits_from (add_digit n d) s) (len_digit_lem len shift)

-- The number that the eight digits stand for.
joined_digits : ℕ → ℕ
joined_digits len =
    ((((((((0 * 16 + len / 2 ^ 28 % 16) * 16 + len / 2 ^ 24 % 16) * 16 + len / 2 ^ 20 % 16) * 16
                      + len / 2 ^ 16 % 16)
                    * 16
                  + len / 2 ^ 12 % 16)
                * 16
              + len / 2 ^ 8 % 16)
            * 16
          + len / 2 ^ 4 % 16)
        * 16
      + len / 2 ^ 0 % 16)

joined_digits_lem : (len : ℕ) → len < 2 ^ 32 → joined_digits len ≡ len
unfolding joined_digits
joined_digits_lem len h = omega (arith, h)

digits_from-len_digits :
    (len : ℕ) → digits_from (some 0) (len_digits len) ≡ some (joined_digits len)
unfolding joined_digits
digits_from-len_digits len =
    digits_from_lem 0 len 28 (
      len_digit len 24
      ∷ len_digit len 20
      ∷ len_digit len 16
      ∷ len_digit len 12
      ∷ len_digit len 8
      ∷ len_digit len 4
      ∷ len_digit len 0
      ∷ [])
    ∙ digits_from_lem (0 * 16 + len / 2 ^ 28 % 16) len 24 (
        len_digit len 20
        ∷ len_digit len 16
        ∷ len_digit len 12
        ∷ len_digit len 8
        ∷ len_digit len 4
        ∷ len_digit len 0
        ∷ [])
    ∙ digits_from_lem ((0 * 16 + len / 2 ^ 28 % 16) * 16 + len / 2 ^ 24 % 16) len 20 (
        len_digit len 16
        ∷ len_digit len 12
        ∷ len_digit len 8
        ∷ len_digit len 4
        ∷ len_digit len 0
        ∷ [])
    ∙ digits_from_lem
        (((0 * 16 + len / 2 ^ 28 % 16) * 16 + len / 2 ^ 24 % 16) * 16 + len / 2 ^ 20 % 16) len 16
        (len_digit len 12 ∷ len_digit len 8 ∷ len_digit len 4 ∷ len_digit len 0 ∷ [])
    ∙ digits_from_lem
        ((((0 * 16 + len / 2 ^ 28 % 16) * 16 + len / 2 ^ 24 % 16) * 16 + len / 2 ^ 20 % 16) * 16
          + len / 2 ^ 16 % 16)
        len 12 (len_digit len 8 ∷ len_digit len 4 ∷ len_digit len 0 ∷ [])
    ∙ digits_from_lem
        (((((0 * 16 + len / 2 ^ 28 % 16) * 16 + len / 2 ^ 24 % 16) * 16 + len / 2 ^ 20 % 16) * 16
              + len / 2 ^ 16 % 16)
            * 16
          + len / 2 ^ 12 % 16)
        len 8 (len_digit len 4 ∷ len_digit len 0 ∷ [])
    ∙ digits_from_lem
        ((((((0 * 16 + len / 2 ^ 28 % 16) * 16 + len / 2 ^ 24 % 16) * 16 + len / 2 ^ 20 % 16) * 16
                  + len / 2 ^ 16 % 16)
                * 16
              + len / 2 ^ 12 % 16)
            * 16
          + len / 2 ^ 8 % 16)
        len 4 (len_digit len 0 ∷ [])
    ∙ digits_from_lem
        (((((((0 * 16 + len / 2 ^ 28 % 16) * 16 + len / 2 ^ 24 % 16) * 16 + len / 2 ^ 20 % 16) * 16
                      + len / 2 ^ 16 % 16)
                    * 16
                  + len / 2 ^ 12 % 16)
                * 16
              + len / 2 ^ 8 % 16)
            * 16
          + len / 2 ^ 4 % 16)
        len 0 []

len_digits_lem : (len : ℕ) → len < 2 ^ 32 → from_str_radix (len_digits len) ≡ some len
unfolding from_str_radix
len_digits_lem len h =
    rw (len_digit_sign len 28) (digits_from-len_digits len ∙ ap some (joined_digits_lem len h))

-- A request's header is twelve bytes, and both its fields come back from it.
pub decode_header-encode_header :
    (cmd len : ℕ)
    → cmd < 2 ^ 32
    → len < 2 ^ 32
    → (length (encode_header cmd len) ≡ 12)
      × (decode_header (encode_header cmd len) ≡ some (cmd, len))
unfolding encode_header decode_header
decode_header-encode_header cmd len hc hl =
    (refl, rw (len_digits_lem len hl) (ap (λ (n : ℕ). some (n, len)) (omega (arith, hc))))

command_code_bound : (c : Command) → command_code c < 2 ^ 32
unfolding command_code
command_code_bound sh = omega arith
command_code_bound provider = omega arith
command_code_bound app_service = omega arith
command_code_bound system_service = omega arith
command_code_bound broadcast = omega arith
command_code_bound start_activity = omega arith
command_code_bound start_service = omega arith
command_code_bound run_test = omega arith
command_code_bound system_service_shell_command = omega arith

module _ (is_utf8 : List ℕ → Bool) (json_err : Text → Option Text) where
  response_framed :
      (status : Status) (code len : ℕ) (body : List ℕ)
      → len < 2 ^ 32
      → status_from_bytes
          (code / 0x100_0000 % 256)
          (code / 0x1_0000 % 256)
          (code / 0x100 % 256)
          (code % 256)
        ≡ ok status
      → is_utf8 body ≡ true
      → read_response is_utf8 json_err false (encode_header code len ++ body)
        ≡ by_status is_utf8 json_err body status
  unfolding read_response encode_header
  response_framed status code len body hl is_status utf8 =
      rw is_status (rw (len_digits_lem len hl) (rw utf8 refl))

  -- Where nothing fails, a command is written as its header and the payload, and the header says the
  -- command and the low 32 bits of the payload's length. A response that starts with the header of its
  -- status and of any length is read to the end of the stream, whatever the length.
  pub send_framed :
      (cmd : Command) (status : Status) (code len : ℕ) (payload body : List ℕ) (s : Stream)
      → len < 2 ^ 32
      → status_from_bytes
          (code / 0x100_0000 % 256)
          (code / 0x1_0000 % 256)
          (code / 0x100 % 256)
          (code % 256)
        ≡ ok status
      → s.incoming ≡ encode_header code len ++ body
      → s.header_fails ≡ false
      → s.payload_fails ≡ false
      → s.read_fails ≡ false
      → is_utf8 body ≡ true
      → ((send_command_serialized is_utf8 json_err cmd payload s).0
          ≡ by_status is_utf8 json_err body status)
        × ((send_command_serialized is_utf8 json_err cmd payload s).1.written
            ≡ s.written ++ (encode_header (command_code cmd) (length payload % 2 ^ 32) ++ payload))
        × (decode_header (encode_header (command_code cmd) (length payload % 2 ^ 32))
            ≡ some (command_code cmd, length payload % 2 ^ 32))
  unfolding send_command_serialized send_raw_command_serialized
  send_framed cmd status code len payload body s hl is_status incoming hf pf rf utf8 = (
    ground (
      arith,
      hf,
      pf,
      ap₂ (read_response is_utf8 json_err) rf incoming,
      response_framed status code len body hl is_status utf8,
    ),
    ground (arith, hf, pf),
    (decode_header-encode_header (command_code cmd) (length payload % 2 ^ 32)
        (command_code_bound cmd) (omega arith)).1,
  )
