-- ===== src/Escape/RoundTrip.antt =====
-- What `unreplace_char` makes of a text that `replace_char` wrote, and what `replace_char` writes.
use dtu.Prelude.{
  ℕ, false, [], ◌∷◌, ◌++◌, map, append_assoc, ◌≡◌, ◌≢◌, ◌↔◌, refl, sym, ◌∙◌, arith, ◌==◌,
  if◌then◌else◌, Text, contains,
}
use dtu.Escape.{escape_char, replace_char, unreplace_char}

-- The decoder's step over a plain character, whatever follows.
unreplace_char-plain :
    (c : ℕ) (cs : Text) (t r : ℕ)
    → (c == escape_char) ≡ false
    → unreplace_char (c ∷ cs) t r ≡ (if c == r then t else c) ∷ unreplace_char cs t r
unfolding unreplace_char
unreplace_char-plain c [] t r h = ground arith
unreplace_char-plain c (d ∷ cs) t r h = ground arith

-- The decoder's step over an escape and the character behind it.
unreplace_char-escaped :
    (c : ℕ) (cs : Text) (t r : ℕ)
    → unreplace_char (escape_char ∷ c ∷ cs) t r
      ≡ (if c == r then r ∷ [] else if c == escape_char then t ∷ [] else escape_char ∷ c ∷ [])
        ++ unreplace_char cs t r
unfolding unreplace_char
unreplace_char-escaped c cs t r = refl

-- Every backslash becomes the separator `t`.
abbrev pub without_backslash : ℕ → Text → Text
without_backslash t = map (λ c. if c == escape_char then t else c)

-- Decoding an encoded path gives the path with each backslash turned into the separator, and with
-- nothing else changed, for any separator and any replacement that is not the backslash.
pub unreplace_char-replace_char :
    (s : Text) (target replacement : ℕ)
    → replacement ≢ escape_char
    → unreplace_char (replace_char s target replacement) target replacement
      ≡ without_backslash target s
unfolding replace_char
unreplace_char-replace_char [] t r h = unfold unreplace_char in refl
unreplace_char-replace_char (c ∷ cs) t r h = ground (
  arith,
  unreplace_char-replace_char cs t r h,
  unreplace_char-plain r (replace_char cs t r) t r,
  unreplace_char-plain c (replace_char cs t r) t r,
  unreplace_char-escaped r (replace_char cs t r) t r,
  unreplace_char-escaped c (replace_char cs t r) t r,
)

without_backslash-same :
    (s : Text) (t : ℕ) → contains s escape_char ≡ false → without_backslash t s ≡ s
without_backslash-same [] t h = refl
without_backslash-same (c ∷ cs) t h = ground (arith, without_backslash-same cs t)

-- A path that holds no backslash is read back from its encoded form.
pub unreplace_char-replace_char_same :
    (s : Text) (target replacement : ℕ)
    → replacement ≢ escape_char
    → contains s escape_char ≡ false
    → unreplace_char (replace_char s target replacement) target replacement ≡ s
unreplace_char-replace_char_same s t r h k =
    unreplace_char-replace_char s t r h ∙ without_backslash-same s t k

without_backslash-head :
    (s : Text) (t : ℕ)
    → t ≢ escape_char
    → without_backslash t s ≡ s
    → contains s escape_char ≡ false
without_backslash-head [] t h e = refl
without_backslash-head (c ∷ cs) t h e = ground (arith, without_backslash-head cs t h)

-- A path is read back from its encoded form exactly when it holds no backslash: the decoder writes
-- the separator for an escaped backslash.
pub replace_char_lossless_iff :
    (s : Text) (target replacement : ℕ)
    → target ≢ escape_char
    → replacement ≢ escape_char
    → (unreplace_char (replace_char s target replacement) target replacement ≡ s)
      ↔ (contains s escape_char ≡ false)
replace_char_lossless_iff s t r ht hr = (
  λ e. without_backslash-head s t ht (sym (unreplace_char-replace_char s t r hr) ∙ e),
  unreplace_char-replace_char_same s t r hr,
)

-- An encoded name holds no separator.
pub contains-replace_char :
    (s : Text) (target replacement : ℕ)
    → target ≢ escape_char
    → target ≢ replacement
    → contains (replace_char s target replacement) target ≡ false
unfolding replace_char
contains-replace_char [] t r h k = refl
contains-replace_char (c ∷ cs) t r h k = ground (arith, contains-replace_char cs t r h k)

-- Two paths with one encoded name are one path: squashed names do not collide.
pub replace_char-injective :
    (s u : Text) (target replacement : ℕ)
    → target ≢ escape_char
    → replacement ≢ escape_char
    → target ≢ replacement
    → replace_char s target replacement ≡ replace_char u target replacement
    → s ≡ u
unfolding replace_char
replace_char-injective [] [] t r ht hr htr e = refl
replace_char-injective [] (d ∷ u) t r ht hr htr e = ground arith
replace_char-injective (c ∷ s) [] t r ht hr htr e = ground arith
replace_char-injective (c ∷ s) (d ∷ u) t r ht hr htr e =
    ground (arith, replace_char-injective s u t r ht hr htr)

-- Encoding goes character by character.
pub replace_char-append :
    (s u : Text) (target replacement : ℕ)
    → replace_char (s ++ u) target replacement
      ≡ replace_char s target replacement ++ replace_char u target replacement
unfolding replace_char
replace_char-append [] u t r = refl
replace_char-append (c ∷ s) u t r = simp (replace_char-append s u t r, append_assoc)

-- Encoding neither makes nor removes a character that it does not treat.
pub contains-replace_char_other :
    (s : Text) (target replacement c : ℕ)
    → c ≢ target
    → c ≢ replacement
    → c ≢ escape_char
    → contains (replace_char s target replacement) c ≡ contains s c
unfolding replace_char
contains-replace_char_other [] t r c ht hr he = refl
contains-replace_char_other (x ∷ s) t r c ht hr he =
    ground (arith, contains-replace_char_other s t r c ht hr he)
