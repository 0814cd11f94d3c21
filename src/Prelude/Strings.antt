-- ===== src/Prelude/Strings.antt =====
-- Texts as lists of code points, with the operations of Rust's `str` that the program uses.
use Prim.Native.Char.{code}
use Prim.Native.String.{String}
use Prim.Native.Nat.{ℕ}
use mathlib.Core.Path.{◌≡◌, refl}
use mathlib.Core.Logic.{◌↔◌}
use mathlib.Core.Bool.{Bool, true, false, ◌&&◌, ◌||◌}
use mathlib.Core.List.{List, [], ◌∷◌, ◌++◌}
use mathlib.Core.Option.{Option, none, some}
use native.Mathlib.Omega.{arith}
use dtu.Prelude.Tests.{◌==◌, if◌then◌else◌}

abbrev pub Text : Type 0
Text = List ℕ

abbrev pub codes : String → Text
codes String.[] = []
codes (String.◌∷◌ c s) = code c ∷ codes s

-- Equality of texts, as `==` on `str`.
unfoldable pub same : Text → Text → Bool
same [] [] = true
same (x ∷ xs) (y ∷ ys) = x == y && same xs ys
same _ _ = false

pub same_iff : (a b : Text) → (same a b ≡ true) ↔ (a ≡ b)
unfolding same
same_iff (x ∷ a) (y ∷ b) = ground (arith, same_iff a b)
same_iff _ _ = ground arith

pub same_refl : (a : Text) → same a a ≡ true
same_refl a = (same_iff a a).1 refl

-- `str::contains` for one character.
abbrev pub contains : Text → ℕ → Bool
contains [] c = false
contains (x ∷ xs) c = x == c || contains xs c

pub contains-append :
    (c : ℕ) (xs ys : Text) → contains (xs ++ ys) c ≡ (contains xs c || contains ys c)
contains-append c [] ys = refl
contains-append c (x ∷ xs) ys = ground (arith, contains-append c xs ys)

-- `str::starts_with` and `str::ends_with` for one character.
abbrev pub starts_with_char : Text → ℕ → Bool
starts_with_char [] c = false
starts_with_char (x ∷ xs) c = x == c

abbrev pub ends_with_char : Text → ℕ → Bool
ends_with_char [] c = false
ends_with_char (x ∷ []) c = x == c
ends_with_char (x ∷ y ∷ xs) c = ends_with_char (y ∷ xs) c

pub ends_with_char-append : (xs : Text) (x c : ℕ) → ends_with_char (xs ++ x ∷ []) c ≡ (x == c)
ends_with_char-append [] x c = refl
ends_with_char-append (y ∷ []) x c = refl
ends_with_char-append (y ∷ z ∷ xs) x c = ends_with_char-append (z ∷ xs) x c

-- `str::split_once` and `str::rsplit_once`: the text before and after the first (last) separator.
unfoldable pub split_once : ℕ → Text → Option (Text × Text)
split_once sep [] = none
split_once sep (x ∷ xs) =
    let rest = split_once sep xs in
    if x == sep then some ([], xs) else elim rest [ none ↦ none | some (a, b) ↦ some (x ∷ a, b) ]

unfoldable pub rsplit_once : ℕ → Text → Option (Text × Text)
rsplit_once sep [] = none
rsplit_once sep (x ∷ xs) = elim (rsplit_once sep xs) [
  | some (a, b) ↦ some (x ∷ a, b)
  | none ↦ if x == sep then some ([], xs) else none
]

pub split_once_lem :
    (sep : ℕ) (s a b : Text)
    → split_once sep s ≡ some (a, b)
    → (s ≡ a ++ sep ∷ b) × (contains a sep ≡ false)
unfolding split_once
split_once_lem sep [] a b h = cc
split_once_lem sep (x ∷ xs) [] b h = ground (arith, split_once_lem sep xs [] b)
split_once_lem sep (x ∷ xs) (y ∷ a) b h = ground (arith, split_once_lem sep xs a b)

split_once-none : (sep : ℕ) (s : Text) → contains s sep ≡ false → split_once sep s ≡ none
unfolding split_once
split_once-none sep [] h = refl
split_once-none sep (x ∷ xs) h = ground (arith, split_once-none sep xs)

-- The first separator splits a text whose front has none.
pub split_once-append :
    (sep : ℕ) (a b : Text) → contains a sep ≡ false → split_once sep (a ++ sep ∷ b) ≡ some (a, b)
unfolding split_once
split_once-append sep [] b h = ground arith
split_once-append sep (x ∷ a) b h = ground (arith, split_once-append sep a b)

pub rsplit_once-none : (sep : ℕ) (s : Text) → contains s sep ≡ false → rsplit_once sep s ≡ none
unfolding rsplit_once
rsplit_once-none sep [] h = refl
rsplit_once-none sep (x ∷ xs) h = ground (arith, rsplit_once-none sep xs)

-- The last separator splits a text whose back has none.
pub rsplit_once-append :
    (sep : ℕ) (a b : Text) → contains b sep ≡ false → rsplit_once sep (a ++ sep ∷ b) ≡ some (a, b)
unfolding rsplit_once
rsplit_once-append sep [] b h = ground (arith, rsplit_once-none sep b h)
rsplit_once-append sep (x ∷ a) b h = rw (rsplit_once-append sep a b h)

pub rsplit_once-eq-none : (sep : ℕ) (s : Text) → rsplit_once sep s ≡ none → contains s sep ≡ false
unfolding rsplit_once
rsplit_once-eq-none sep [] h = refl
rsplit_once-eq-none sep (x ∷ xs) h = ground (arith, rsplit_once-eq-none sep xs)

pub rsplit_once-eq-some :
    (sep : ℕ) (s a b : Text)
    → rsplit_once sep s ≡ some (a, b)
    → (s ≡ a ++ sep ∷ b) × (contains b sep ≡ false)
unfolding rsplit_once
rsplit_once-eq-some sep [] a b h = cc
rsplit_once-eq-some sep (x ∷ xs) [] b h =
    ground (arith, rsplit_once-eq-some sep xs [] b, rsplit_once-eq-none sep xs)
rsplit_once-eq-some sep (x ∷ xs) (y ∷ a) b h = ground (arith, rsplit_once-eq-some sep xs a b)

-- `str::starts_with` and `str::ends_with` for a text.
abbrev pub starts_with : Text → Text → Bool
starts_with s [] = true
starts_with [] (p ∷ ps) = false
starts_with (c ∷ cs) (p ∷ ps) = c == p && starts_with cs ps

pub starts_with-append : (p s : Text) → starts_with (p ++ s) p ≡ true
starts_with-append [] [] = refl
starts_with-append [] (c ∷ s) = refl
starts_with-append (x ∷ p) s = ground (arith, starts_with-append p s)

-- `str::trim_start_matches` for one character.
abbrev pub trim_start_matches : Text → ℕ → Text
trim_start_matches [] c = []
trim_start_matches (x ∷ xs) c =
    let rest = trim_start_matches xs c in if x == c then rest else x ∷ xs

-- `str::trim_end_matches` for one character.
abbrev pub trim_end_matches : Text → ℕ → Text
trim_end_matches [] c = []
trim_end_matches (x ∷ xs) c = elim (trim_end_matches xs c) [
  | [] ↦ if x == c then [] else x ∷ []
  | y ∷ ys ↦ x ∷ y ∷ ys
]
