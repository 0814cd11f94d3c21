-- ===== src/Escape.antt =====
-- The escaping of path separators in file names: `replace_char` and `unreplace_char` of
-- dtu/src/utils/mod.rs, on the code points of the text.
pub mod RoundTrip
mod Tests
use dtu.Prelude.{ℕ, Bool, true, false, List, [], ◌∷◌, ◌++◌, ◌==◌, if◌then◌else◌, Text}

-- `PATHSAFE_ESCAPE_CHAR` where the target is not Windows.
abbrev pub escape_char : ℕ
escape_char = b'\\'

-- What the loop of `replace_char` pushes for one character.
replace_one : ℕ → ℕ → ℕ → Text
replace_one target replacement c =
    if c == replacement
    then escape_char ∷ replacement ∷ []
    else if c == escape_char
    then escape_char ∷ c ∷ []
    else if c == target
    then replacement ∷ []
    else c ∷ []

unfoldable pub replace_char : Text → ℕ → ℕ → Text
unfolding replace_one
replace_char [] target replacement = []
replace_char (c ∷ cs) target replacement =
    replace_one target replacement c ++ replace_char cs target replacement

-- What `unreplace_char` pushes for a character with no escape before it.
unreplace_plain : ℕ → ℕ → ℕ → ℕ
unreplace_plain target replacement c = if c == replacement then target else c

-- What it pushes for the character `nc` behind an escape.
unreplace_escaped : ℕ → ℕ → ℕ → Text
unreplace_escaped target replacement nc =
    if nc == replacement
    then replacement ∷ []
    else if nc == escape_char
    then target ∷ []
    else escape_char ∷ nc ∷ []

-- An escape at the very end is kept.
unfoldable pub unreplace_char : Text → ℕ → ℕ → Text
unfolding unreplace_plain unreplace_escaped
unreplace_char [] target replacement = []
unreplace_char (c ∷ []) target replacement =
    (if c == escape_char then c else unreplace_plain target replacement c) ∷ []
unreplace_char (c ∷ nc ∷ cs) target replacement = elim (c == escape_char) [
  | true ↦ unreplace_escaped target replacement nc ++ unreplace_char cs target replacement
  | false ↦ unreplace_plain target replacement c ∷ unreplace_char (nc ∷ cs) target replacement
]
