-- ===== src/Hex.antt =====
-- Hexadecimal texts: dtu/src/utils/hex.rs. A byte is a number below 256, and a text is its bytes.
pub mod RoundTrip
mod Tests
use dtu.Prelude.{
  ℕ, zero, suc, ◌+◌, ◌-◌, ◌*◌, ◌/◌, ◌%◌, ◌^◌, ◌≤◌, ◌<◌, String, ◌≡◌, refl, sym, ap, ap₂, ◌∙◌,
  fun_ext, ◌≢◌, ◌↔◌, ◌⊎◌, inl, inr, Bool, true, false, not, ◌&&◌, ◌||◌, Option, none, some, List,
  [], ◌∷◌, ◌++◌, map, append-nil, append_assoc, map-append, arith, ltb, leb, ◌==◌, if◌then◌else◌,
  ==_iff, ==-refl, Bool-cases, Option-cases, length, take, drop, all, is_empty, retain,
  length-append, all-append, retain-append, Text, codes, same, same_iff, same_refl, contains,
  contains-append, starts_with_char, ends_with_char, ends_with_char-append, starts_with,
  starts_with-append, trim_start_matches, trim_end_matches, split_once, rsplit_once, split_once_lem,
  split_once-append, rsplit_once-none, rsplit_once-append, rsplit_once-eq-none, rsplit_once-eq-some,
}

abbrev pub hex_bytes_lower : Text
hex_bytes_lower = codes "0123456789abcdef"

abbrev pub hex_bytes_upper : Text
hex_bytes_upper = codes "0123456789ABCDEF"

-- An element of a table; the index stays below 16.
abbrev pub digit_at : Text → ℕ → ℕ
digit_at [] i = 0
digit_at (c ∷ cs) zero = c
digit_at (c ∷ cs) (suc i) = digit_at cs i

-- `(b & 0xF0) >> 4` and `b & 0xF`.
abbrev pub high_of : ℕ → ℕ
high_of b = b / 16 % 16

abbrev pub low_of : ℕ → ℕ
low_of b = b % 16

unfoldable pub bytes_to_hex : List ℕ → Text
bytes_to_hex [] = []
bytes_to_hex (b ∷ bs) =
    digit_at hex_bytes_lower (high_of b) ∷ (digit_at hex_bytes_lower (low_of b) ∷ bytes_to_hex bs)

-- The loop of `decode_nibble`, from the index `i` on, with what is left of both tables.
decode_from : ℕ → Text → Text → ℕ → Option ℕ
decode_from i (c ∷ lower) (u ∷ upper) nibble = elim (c == nibble) [
  | true ↦ some i
  | false ↦ elim (ltb 9 i && u == nibble) [
    | true ↦ some i
    | false ↦ decode_from (i + 1) lower upper nibble
  ]
]
decode_from i _ _ nibble = none

unfoldable pub decode_nibble : ℕ → Option ℕ
unfolding decode_from
decode_nibble nibble = decode_from 0 hex_bytes_lower hex_bytes_upper nibble

-- `(high << 4) | low`, of two nibbles.
abbrev pub joined : Option ℕ → Option ℕ → Option ℕ
joined (some h) (some l) = some (h * 16 + l)
joined _ _ = none

unfoldable pub decode_nibbles : ℕ → ℕ → Option ℕ
unfolding decode_nibble
decode_nibbles high low = joined (decode_nibble high) (decode_nibble low)

abbrev pub cons_byte : Option ℕ → Option (List ℕ) → Option (List ℕ)
cons_byte (some b) (some bs) = some (b ∷ bs)
cons_byte _ _ = none

-- The loop of `bytes_from_hex`, over a text of even length.
decode_pairs : Text → Option (List ℕ)
unfolding decode_nibbles
decode_pairs [] = some []
decode_pairs (high ∷ []) = none
decode_pairs (high ∷ low ∷ rest) = cons_byte (decode_nibbles high low) (decode_pairs rest)

pub without_prefix : Text → Text
without_prefix ashex =
    if starts_with ashex (codes "0x") || starts_with ashex (codes "0X") then drop 2 ashex else ashex

unfoldable pub bytes_from_hex : Text → Option (List ℕ)
unfolding decode_pairs without_prefix
bytes_from_hex ashex =
    let digits = without_prefix ashex in
    if length digits % 2 == 0 then decode_pairs digits else none
