-- ===== src/Shell.antt =====
-- Shell words: `quote` and `split` of dtu/src/command.rs.
pub mod Quoting
pub mod Splitting
mod Tests
use dtu.Prelude.{
  ℕ, Bool, true, false, not, ◌&&◌, ◌||◌, Option, none, some, List, [], ◌∷◌, ◌++◌, leb, ◌==◌,
  if◌then◌else◌, is_empty, Text, codes,
}

abbrev pub single_quote : ℕ
single_quote = 0x27

abbrev pub double_quote : ℕ
double_quote = 0x22

abbrev pub backslash : ℕ
backslash = b'\\'

-- What `quote` pushes for one character.
quote_one : ℕ → Text
quote_one c = if c == single_quote then codes "'\"'\"'" else c ∷ []

quote_body : Text → Text
quote_body [] = []
quote_body (c ∷ cs) = quote_one c ++ quote_body cs

unfoldable pub quote : Text → Text
unfolding quote_body quote_one
quote s = single_quote ∷ (quote_body s ++ single_quote ∷ [])

abbrev within : ℕ → ℕ → ℕ → Bool
within lo hi c = leb lo c && leb c hi

-- `char::is_whitespace`: the code points with the property White_Space.
unfoldable pub is_whitespace : ℕ → Bool
is_whitespace c =
    within 0x9 0xd c
    || c == 0x20
    || c == 0x85
    || c == 0xa0
    || c == 0x1680
    || within 0x2000 0x200a c
    || c == 0x2028
    || c == 0x2029
    || c == 0x202f
    || c == 0x205f
    || c == 0x3000

-- The variables of the loop of `split`.
pub record Splitter : Type 0 where
  pub escaped : Bool
  pub in_single : Bool
  pub in_double : Bool
  pub into : Text
  pub sp : List Text

abbrev pub start : Splitter
start = record { escaped = false; in_single = false; in_double = false; into = []; sp = [] }

-- The macro `finish`.
abbrev pub finish : Splitter → Splitter
finish s = record s { into = []; sp = s.sp ++ s.into ∷ [] }

abbrev pub push : Splitter → ℕ → Splitter
push s c = record s { into = s.into ++ c ∷ [] }

pub split_step : Splitter → ℕ → Splitter
split_step s c =
    if s.escaped
    then push (record s { escaped = false }) c
    else if c == backslash
    then record s { escaped = true }
    else if c == single_quote && s.in_single
    then finish (record s { in_single = false })
    else if c == single_quote && not s.in_double
    then record s { in_single = true }
    else if c == double_quote && s.in_double
    then finish (record s { in_double = false })
    else if c == double_quote && not s.in_single
    then record s { in_double = true }
    else if s.in_single || s.in_double || not (is_whitespace c)
    then push s c
    else if not (is_empty s.into)
    then finish s
    else s

pub split_loop : Splitter → Text → Splitter
split_loop s [] = s
split_loop s (c ∷ cs) = split_loop (split_step s c) cs

pub split_end : Splitter → Option (List Text)
split_end s =
    if s.escaped || s.in_single || s.in_double
    then none
    else some (if not (is_empty s.into) then s.sp ++ s.into ∷ [] else s.sp)

unfoldable pub split : Text → Option (List Text)
unfolding split_loop split_step split_end is_whitespace
split s = split_end (split_loop start s)
