-- ===== src/ProjectPath/RoundTrip.antt =====
-- Squashing a path of the project and unsquashing it.
use dtu.Prelude.{
  ◌≡◌, refl, sym, ap, ◌∙◌, ◌||◌, inl, inr, Bool-cases, codes, same, is_empty, ◌≢◌, Bool, true,
  false, Option, none, some, List, [], ◌∷◌, ◌++◌, arith, length, drop, Text, contains,
  ends_with_char, starts_with, starts_with-append, trim_start_matches,
}
use dtu.Escape.{escape_char, replace_char, unreplace_char}
use dtu.Escape.RoundTrip.{unreplace_char-replace_char_same, contains-replace_char}
use dtu.DevicePath.{os_path_sep_char}
use dtu.ProjectPath.{
  squash_path, unsquash_path, proj_home_relative, try_proj_home_relative, join, is_absolute,
}

drop-append {ℓ} : {A : Type ℓ} (xs ys : List A) → drop (length xs) (xs ++ ys) ≡ ys
drop-append [] ys = refl
drop-append (x ∷ xs) ys = drop-append xs ys

trim-relative :
    (rel : Text) → is_absolute rel ≡ false → trim_start_matches rel os_path_sep_char ≡ rel
trim-relative [] h = refl
trim-relative (c ∷ rel) h = ground arith

-- The texts without a separator that have no file name, as paths.
abbrev pub is_dots : Text → Bool
is_dots name = is_empty name || same name (codes ".") || same name (codes "..")

unreplace_char-dots : (name : Text) → is_dots name ≡ true → unreplace_char name b'/' b'#' ≡ name
unfolding unreplace_char same
unreplace_char-dots [] h = refl
unreplace_char-dots (c ∷ []) h = ground (arith, h)
unreplace_char-dots (c ∷ d ∷ []) h = ground (arith, h)
unreplace_char-dots (c ∷ d ∷ e ∷ name) h = ground (arith, h)

is_dots-replace_char :
    (rel : Text)
    → contains rel escape_char ≡ false
    → is_dots rel ≡ false
    → is_dots (replace_char rel b'/' b'#') ≡ false
is_dots-replace_char rel plain h = elim (Bool-cases (is_dots (replace_char rel b'/' b'#'))) [
  | inl e ↦
      let back = unreplace_char-replace_char_same rel b'/' b'#' (omega arith) plain in
      let same_text = sym (unreplace_char-dots (replace_char rel b'/' b'#') e) ∙ back in
      cc (sym e ∙ ap is_dots same_text ∙ h)
  | inr e ↦ e
]

squashed_lem :
    (home rel : Text)
    → is_absolute rel ≡ false
    → squash_path (some home) (home ++ os_path_sep_char ∷ rel) true
      ≡ some (replace_char rel b'/' b'#')
unfolding squash_path
squashed_lem home rel hrel = ground (
  arith,
  starts_with-append home (os_path_sep_char ∷ rel),
  drop-append home (os_path_sep_char ∷ rel),
  trim-relative rel hrel,
)

unsquashed_lem :
    (home rel : Text)
    → home ≢ []
    → ends_with_char home os_path_sep_char ≡ false
    → is_absolute rel ≡ false
    → contains rel escape_char ≡ false
    → unsquash_path (some home) (some (replace_char rel b'/' b'#')) true
      ≡ some (home ++ os_path_sep_char ∷ rel)
unfolding unsquash_path join
unsquashed_lem home rel hne hend hrel hesc =
    ground (arith, unreplace_char-replace_char_same rel b'/' b'#' (omega arith) hesc)

-- `unsquash_path` of the path that a squashed name is.
abbrev pub unsquash_name : (Text → Option Text) → Option Text → Option Text → Option Text
unsquash_name file_name home none = none
unsquash_name file_name home (some name) = unsquash_path home (file_name name) true

-- A file of the project comes back from its squashed name, where the home directory does not end
-- in a separator, the relative path holds no backslash, and it is not empty or one of the dots, of which
-- a path has no file name. Of another name without a separator `Path::file_name` gives that name.
pub unsquash_path-squash_path :
    (file_name : Text → Option Text)
    → ((name : Text)
        → contains name os_path_sep_char ≡ false
        → is_dots name ≡ false
        → file_name name ≡ some name)
    → (home rel : Text) → home ≢ []
    → ends_with_char home os_path_sep_char ≡ false
    → is_absolute rel ≡ false
    → contains rel escape_char ≡ false
    → is_dots rel ≡ false
    → unsquash_name file_name
        (some home)
        (squash_path (some home) (home ++ os_path_sep_char ∷ rel) true)
      ≡ some (home ++ os_path_sep_char ∷ rel)
unsquash_path-squash_path file_name whole home rel hne hend hrel hesc hdots =
    let name = replace_char rel b'/' b'#' in
    let named =
      whole name (contains-replace_char rel b'/' b'#' (omega arith) (omega arith))
        (is_dots-replace_char rel hesc hdots) in
    ap (unsquash_name file_name (some home)) (squashed_lem home rel hrel)
    ∙ ap (λ (n : Option Text). unsquash_path (some home) n true) named
    ∙ unsquashed_lem home rel hne hend hrel hesc

-- Without the project, an absolute path with no backslash comes back whole.
pub unsquash_path-squash_path_absolute :
    (home : Option Text) (path : Text) (proj_relative : Bool)
    → is_absolute path ≡ true
    → contains path escape_char ≡ false
    → unsquash_path home (squash_path home path false) proj_relative ≡ some path
unfolding unsquash_path squash_path
unsquash_path-squash_path_absolute home path rel habs hesc =
    ground (arith, unreplace_char-replace_char_same path b'/' b'#' (omega arith) hesc)

-- The test that a path lies below the home directory compares texts and not components: whatever
-- text follows the home directory's name, as in a sibling directory, is taken for a path inside
-- it, and is squashed to the name of that file of the project.
pub squash_path_sibling :
    (home suffix : Text)
    → squash_path (some home) (home ++ suffix) true
      ≡ squash_path (some home) (home ++ os_path_sep_char ∷ suffix) true
unfolding squash_path
squash_path_sibling home suffix = ground (
  arith,
  starts_with-append home suffix,
  starts_with-append home (os_path_sep_char ∷ suffix),
  drop-append home suffix,
  drop-append home (os_path_sep_char ∷ suffix),
)

-- An absolute path that is the home directory's text, a separator and a relative rest is made
-- relative to that rest; one that does not start with the home directory's text has no relative
-- form, and is left as it is where a path is wanted.
pub proj_home_relative_lem :
    (base rel other : Text) (exists : Text → Bool)
    → is_absolute base ≡ true
    → is_absolute rel ≡ false
    → is_absolute other ≡ true
    → starts_with other base ≡ false
    → (proj_home_relative (some base) exists (base ++ os_path_sep_char ∷ rel) ≡ some rel)
      × (proj_home_relative (some base) exists other ≡ none)
      × (try_proj_home_relative (some base) exists other ≡ other)
unfolding proj_home_relative try_proj_home_relative
proj_home_relative_lem [] rel other exists hb hr ho hs = cc
proj_home_relative_lem (c ∷ base) rel other exists hb hr ho hs = ground (
  arith,
  starts_with-append (c ∷ base) (os_path_sep_char ∷ rel),
  drop-append (c ∷ base) (os_path_sep_char ∷ rel),
  trim-relative rel hr,
)
