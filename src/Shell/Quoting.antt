-- ===== src/Shell/Quoting.antt =====
-- What a POSIX shell reads where `quote` wrote a word.
use dtu.Prelude.{
  ℕ, ◌≡◌, refl, ap, Bool, true, false, ◌&&◌, ◌||◌, Option, none, some, [], ◌∷◌, ◌++◌, append_assoc,
  arith, leb, ◌==◌, if◌then◌else◌, Text, codes,
}
use dtu.Shell.{quote, quote_body, single_quote, double_quote}

-- The quoting rules of a shell, for the first word of a text.
pub data Quoting : Type 0 where
  unquoted in_single in_double : Quoting

abbrev is_blank : ℕ → Bool
is_blank c = c == b' ' || c == b'\t' || c == b'\n'

abbrev pub at_blank : Text → Bool
at_blank [] = true
at_blank (c ∷ cs) = is_blank c

-- Unquoted letters, digits and these stand for themselves; whatever else a shell may treat in its own
-- way is refused here.
is_literal : ℕ → Bool
is_literal c =
    (leb b'a' c && leb c b'z')
    || (leb b'A' c && leb c b'Z')
    || (leb b'0' c && leb c b'9')
    || c == b'/'
    || c == b'.'
    || c == b'_'
    || c == b'-'

is_active_in_double : ℕ → Bool
is_active_in_double c = c == b'\\' || c == b'$' || c == b'`'

abbrev push : ℕ → Option (Text × Text) → Option (Text × Text)
push c none = none
push c (some (word, rest)) = some (c ∷ word, rest)

-- The value of the first word, and the text behind it. `none` is a word that is not closed, or that a
-- shell would expand.
unfoldable pub read_word : Quoting → Text → Option (Text × Text)
unfolding is_literal is_active_in_double
read_word unquoted [] = some ([], [])
read_word unquoted (c ∷ cs) =
    let single = read_word in_single cs in
    let double = read_word in_double cs in
    let more = push c (read_word unquoted cs) in
    if is_blank c
    then some ([], c ∷ cs)
    else if c == single_quote
    then single
    else if c == double_quote
    then double
    else if is_literal c
    then more
    else none
read_word in_single [] = none
read_word in_single (c ∷ cs) =
    let plain = read_word unquoted cs in
    let more = push c (read_word in_single cs) in if c == single_quote then plain else more
read_word in_double [] = none
read_word in_double (c ∷ cs) =
    let plain = read_word unquoted cs in
    let more = push c (read_word in_double cs) in
    if c == double_quote then plain else if is_active_in_double c then none else more

quoted_tick :
    (x : Text)
    → read_word in_single (codes "'\"'\"'" ++ x) ≡ push single_quote (read_word in_single x)
unfolding read_word
quoted_tick x = refl

quoted_other :
    (c : ℕ) (x : Text)
    → (c == single_quote) ≡ false
    → read_word in_single (c ∷ x) ≡ push c (read_word in_single x)
unfolding read_word
quoted_other c x h = rw h

closing_quote :
    (rest : Text)
    → at_blank rest ≡ true
    → read_word in_single (single_quote ∷ rest) ≡ some ([], rest)
unfolding read_word
closing_quote [] h = refl
closing_quote (c ∷ rest) h = rw h

read_word-quote_body :
    (s rest : Text)
    → at_blank rest ≡ true
    → read_word in_single (quote_body s ++ single_quote ∷ rest) ≡ some (s, rest)
unfolding quote
read_word-quote_body [] rest h = closing_quote rest h
read_word-quote_body (c ∷ s) rest h = ground (
  arith,
  read_word-quote_body s rest h,
  quoted_tick (quote_body s ++ single_quote ∷ rest),
  quoted_other c (quote_body s ++ single_quote ∷ rest),
)

-- A shell reads a quoted text as one word with the text as its value, whatever characters it holds,
-- where a blank or the end of the command line follows.
pub read_word-quote :
    (s rest : Text) → at_blank rest ≡ true → read_word unquoted (quote s ++ rest) ≡ some (s, rest)
read_word-quote s rest h =
    rw (quote-append s rest) (unfold read_word in read_word-quote_body s rest h)
  where
    quote-append : (u r : Text) → quote u ++ r ≡ single_quote ∷ (quote_body u ++ single_quote ∷ r)
    quote-append u r = unfold quote in ap (◌∷◌ single_quote) (append_assoc (quote_body u) _ r)
