-- ===== src/Hex/RoundTrip.antt =====
-- Bytes come back from their hexadecimal text.
use dtu.Prelude.{
  ℕ, zero, suc, ◌+◌, ◌*◌, ◌%◌, ◌≤◌, ◌<◌, ◌≡◌, refl, ap, ap₂, ◌∙◌, inl, inr, true, false, Option,
  none, some, List, [], ◌∷◌, ◌++◌, arith, ltb, ◌==◌, Bool-cases, length, all, Text, codes,
}
use dtu.Hex.{
  cons_byte, decode_from, joined, bytes_to_hex, bytes_from_hex, decode_nibble, decode_nibbles,
  decode_pairs, without_prefix, digit_at, hex_bytes_lower, hex_bytes_upper, high_of, low_of,
}

abbrev pub AreBytes : List ℕ → Type 0
AreBytes bs = all (λ b. ltb b 256) bs ≡ true

-- Both cases of a digit are read.
pub decode_nibble-digit_at :
    (n : ℕ)
    → n < 16
    → (decode_nibble (digit_at hex_bytes_lower n) ≡ some n)
      × (decode_nibble (digit_at hex_bytes_upper n) ≡ some n)
      × ((digit_at hex_bytes_lower n == b'x') ≡ false)
      × ((digit_at hex_bytes_lower n == b'X') ≡ false)
unfolding decode_nibble
decode_nibble-digit_at zero h = (refl, refl, refl, refl)
decode_nibble-digit_at (suc zero) h = (refl, refl, refl, refl)
decode_nibble-digit_at (suc (suc zero)) h = (refl, refl, refl, refl)
decode_nibble-digit_at (suc (suc (suc zero))) h = (refl, refl, refl, refl)
decode_nibble-digit_at (suc (suc (suc (suc zero)))) h = (refl, refl, refl, refl)
decode_nibble-digit_at (suc (suc (suc (suc (suc zero))))) h = (refl, refl, refl, refl)
decode_nibble-digit_at (suc (suc (suc (suc (suc (suc zero)))))) h = (refl, refl, refl, refl)
decode_nibble-digit_at (suc (suc (suc (suc (suc (suc (suc zero))))))) h = (refl, refl, refl, refl)
decode_nibble-digit_at (suc (suc (suc (suc (suc (suc (suc (suc zero)))))))) h =
    (refl, refl, refl, refl)
decode_nibble-digit_at (suc (suc (suc (suc (suc (suc (suc (suc (suc zero))))))))) h =
    (refl, refl, refl, refl)
decode_nibble-digit_at (suc (suc (suc (suc (suc (suc (suc (suc (suc (suc zero)))))))))) h =
    (refl, refl, refl, refl)
decode_nibble-digit_at (suc (suc (suc (suc (suc (suc (suc (suc (suc (suc (suc zero))))))))))) h =
    (refl, refl, refl, refl)
decode_nibble-digit_at (suc (suc (suc (suc (suc (suc (suc (suc (suc (suc (suc (suc zero))))))))))))
      h =
    (refl, refl, refl, refl)
decode_nibble-digit_at
      (suc (suc (suc (suc (suc (suc (suc (suc (suc (suc (suc (suc (suc zero))))))))))))) h =
    (refl, refl, refl, refl)
decode_nibble-digit_at
      (suc (suc (suc (suc (suc (suc (suc (suc (suc (suc (suc (suc (suc (suc zero)))))))))))))) h =
    (refl, refl, refl, refl)
decode_nibble-digit_at
      (suc (suc (suc (suc (suc (suc (suc (suc (suc (suc (suc (suc (suc (suc (suc zero)))))))))))))))
      h =
    (refl, refl, refl, refl)
decode_nibble-digit_at
      (suc
        (suc (suc (suc (suc (suc (suc (suc (suc (suc (suc (suc (suc (suc (suc (suc n))))))))))))))))
      h =
    absurd (omega (arith, h))

high-bound : (b : ℕ) → high_of b < 16
high-bound b = omega arith

low-bound : (b : ℕ) → low_of b < 16
low-bound b = omega arith

byte_parts : (b : ℕ) → b < 256 → high_of b * 16 + low_of b ≡ b
byte_parts b h = omega (arith, h)

decode_nibbles_lem :
    (x y h l : ℕ)
    → decode_nibble x ≡ some h
    → decode_nibble y ≡ some l
    → decode_nibbles x y ≡ some (h * 16 + l)
unfolding decode_nibbles decode_nibble
decode_nibbles_lem x y h l hx hy = ap₂ joined hx hy

decode_nibbles-digits :
    (b : ℕ)
    → b < 256
    → decode_nibbles (digit_at hex_bytes_lower (high_of b)) (digit_at hex_bytes_lower (low_of b))
      ≡ some b
decode_nibbles-digits b h =
    decode_nibbles_lem (digit_at hex_bytes_lower (high_of b)) (digit_at hex_bytes_lower (low_of b))
      (high_of b) (low_of b) (decode_nibble-digit_at (high_of b) (high-bound b)).0
      (decode_nibble-digit_at (low_of b) (low-bound b)).0
    ∙ ap some (byte_parts b h)

without_prefix_lem :
    (a c : ℕ) (s : Text)
    → (c == b'x') ≡ false
    → (c == b'X') ≡ false
    → without_prefix (a ∷ c ∷ s) ≡ a ∷ c ∷ s
unfolding without_prefix
without_prefix_lem a c s x capital = ground (arith, x, capital)

decode_pairs-bytes_to_hex : (bs : List ℕ) → AreBytes bs → decode_pairs (bytes_to_hex bs) ≡ some bs
unfolding decode_pairs bytes_to_hex
decode_pairs-bytes_to_hex [] h = refl
decode_pairs-bytes_to_hex (b ∷ bs) h =
    let small : b < 256 = ground (arith, h) in
    rw (decode_nibbles-digits b small) (rw (decode_pairs-bytes_to_hex bs (ground (arith, h))) refl)

length-bytes_to_hex : (bs : List ℕ) → (length (bytes_to_hex bs) % 2 == 0) ≡ true
unfolding bytes_to_hex
length-bytes_to_hex [] = refl
length-bytes_to_hex (b ∷ bs) = ground (arith, length-bytes_to_hex bs)

-- No digit is taken for the prefix.
without_prefix-bytes_to_hex : (bs : List ℕ) → without_prefix (bytes_to_hex bs) ≡ bytes_to_hex bs
unfolding bytes_to_hex without_prefix
without_prefix-bytes_to_hex [] = refl
without_prefix-bytes_to_hex (b ∷ bs) =
    let (lower, upper, x, capital) = decode_nibble-digit_at (low_of b) (low-bound b) in
    without_prefix_lem _ _ (bytes_to_hex bs) x capital

-- Bytes come back from their hexadecimal text, with either prefix or with none.
pub bytes_from_hex-bytes_to_hex :
    (bs : List ℕ)
    → AreBytes bs
    → (bytes_from_hex (bytes_to_hex bs) ≡ some bs)
      × (bytes_from_hex (codes "0x" ++ bytes_to_hex bs) ≡ some bs)
      × (bytes_from_hex (codes "0X" ++ bytes_to_hex bs) ≡ some bs)
unfolding bytes_from_hex without_prefix
bytes_from_hex-bytes_to_hex bs h = (
  rw (without_prefix-bytes_to_hex bs)
      (rw (length-bytes_to_hex bs) (decode_pairs-bytes_to_hex bs h)),
  rw (length-bytes_to_hex bs) (decode_pairs-bytes_to_hex bs h),
  rw (length-bytes_to_hex bs) (decode_pairs-bytes_to_hex bs h),
)

decode_from_bound :
    (i : ℕ) (lower upper : Text) (nibble j : ℕ)
    → i + length lower ≤ 16
    → decode_from i lower upper nibble ≡ some j
    → j < 16
unfolding decode_from
decode_from_bound i [] upper nibble j h e = absurd (ground (arith, e))
decode_from_bound i (c ∷ lower) [] nibble j h e = absurd (ground (arith, e))
decode_from_bound i (c ∷ lower) (u ∷ upper) nibble j h e =
    ground (arith, decode_from_bound (i + 1) lower upper nibble j)

decode_nibble_bound : (n j : ℕ) → decode_nibble n ≡ some j → j < 16
unfolding decode_nibble
decode_nibble_bound n j e = decode_from_bound 0 hex_bytes_lower hex_bytes_upper n j (omega arith) e

joined_bound :
    (h l : Option ℕ) (b : ℕ)
    → ((j : ℕ) → h ≡ some j → j < 16)
    → ((j : ℕ) → l ≡ some j → j < 16)
    → joined h l ≡ some b
    → b < 256
joined_bound (some h) (some l) b hh hl e = ground (arith, hh h refl, hl l refl, e)
joined_bound none l b hh hl e = absurd (ground (arith, e))
joined_bound (some h) none b hh hl e = absurd (ground (arith, e))

decode_nibbles_bound : (x y b : ℕ) → decode_nibbles x y ≡ some b → b < 256
unfolding decode_nibbles
decode_nibbles_bound x y b e =
    joined_bound (decode_nibble x) (decode_nibble y) b (decode_nibble_bound x)
      (decode_nibble_bound y) e

cons_byte_lem :
    (o : Option ℕ) (r : Option (List ℕ)) (bs : List ℕ)
    → cons_byte o r ≡ some bs
    → (b : ℕ) × (rest : List ℕ) × (o ≡ some b) × (r ≡ some rest) × (bs ≡ b ∷ rest)
cons_byte_lem (some b) (some rest) bs e = (b, rest, refl, refl, ground (arith, e))
cons_byte_lem none r bs e = absurd (ground (arith, e))
cons_byte_lem (some b) none bs e = absurd (ground (arith, e))

AreBytes-cons : (b : ℕ) (bs : List ℕ) → b < 256 → AreBytes bs → AreBytes (b ∷ bs)
AreBytes-cons b bs h k = ground (arith, h, k)

decode_pairs_bound :
    (s : Text) (bs : List ℕ) → decode_pairs s ≡ some bs → AreBytes bs × (length s ≡ 2 * length bs)
unfolding decode_pairs
decode_pairs_bound [] bs e = ground (arith, e)
decode_pairs_bound (x ∷ []) bs e = absurd (ground (arith, e))
decode_pairs_bound (x ∷ y ∷ s) bs e =
    let (b, rest, eb, er, ebs) = cons_byte_lem (decode_nibbles x y) (decode_pairs s) bs e in
    let (small, size) = decode_pairs_bound s rest er in
    rw ebs (AreBytes-cons b rest (decode_nibbles_bound x y b eb) small, omega (arith, size))

-- Where a text is read, the result is bytes, one for every two characters behind the prefix.
pub bytes_from_hex_bound :
    (s : Text) (bs : List ℕ)
    → bytes_from_hex s ≡ some bs
    → AreBytes bs × (length (without_prefix s) ≡ 2 * length bs)
unfolding bytes_from_hex
bytes_from_hex_bound s bs e = elim (Bool-cases (length (without_prefix s) % 2 == 0)) [
  | inl h ↦ decode_pairs_bound (without_prefix s) bs (ground (arith, e, h))
  | inr h ↦ absurd (ground (arith, e, h))
]
