-- ===== src/ProjectPath.antt =====
-- Paths below the project's home: `squash_path`, `unsquash_path` and `proj_home_relative` of
-- dtu/src/utils/fs.rs. A path is its text; `home` is what the context gives for the project's
-- directory, and the file name of a path and the test whether a path exists are arguments.
pub mod RoundTrip
mod Tests
use dtu.Prelude.{
  ℕ, Bool, true, false, not, ◌||◌, Option, none, some, ◌∷◌, ◌++◌, if◌then◌else◌, length, drop,
  is_empty, Text, starts_with_char, ends_with_char, starts_with, trim_start_matches,
}
use dtu.Escape.{replace_char, unreplace_char}
use dtu.DevicePath.{os_path_sep_char}

abbrev pub squash_path_sep_char : ℕ
squash_path_sep_char = b'#'

-- `Path::is_absolute` and `Path::join` on Unix.
abbrev pub is_absolute : Text → Bool
is_absolute p = starts_with_char p os_path_sep_char

unfoldable pub join : Text → Text → Text
join base p =
    if is_absolute p
    then p
    else if ends_with_char base os_path_sep_char || is_empty base
    then base ++ p
    else base ++ os_path_sep_char ∷ p

-- The part of a path behind the home directory's text, if it starts with it.
strip_home : Text → Text → Text
strip_home home path = trim_start_matches (drop (length home) path) os_path_sep_char

relative_to : Text → Text → Text
relative_to home path = if starts_with path home then strip_home home path else path

unfoldable pub squash_path : Option Text → Text → Bool → Option Text
unfolding relative_to strip_home
squash_path home path false = some (replace_char path os_path_sep_char squash_path_sep_char)
squash_path none path true = none
squash_path (some home) path true =
    some (replace_char (relative_to home path) os_path_sep_char squash_path_sep_char)

unsquash_in : Option Text → Text → Option Text
unsquash_in none p = none
unsquash_in (some home) p = some (join home p)

-- `file_name` is `Path::file_name` of the path as a string.
unfoldable pub unsquash_path : Option Text → Option Text → Bool → Option Text
unfolding unsquash_in
unsquash_path home none proj_relative = none
unsquash_path home (some name) proj_relative =
    let pbuf = unreplace_char name os_path_sep_char squash_path_sep_char in
    if not proj_relative || is_absolute pbuf then some pbuf else unsquash_in home pbuf

unfoldable pub proj_home_relative : Option Text → (Text → Bool) → Text → Option Text
unfolding strip_home
proj_home_relative none exists path = none
proj_home_relative (some base) exists path =
    if not (is_absolute path)
    then (if not (exists (join base path)) then none else some path)
    else if not (starts_with path base)
    then none
    else some (strip_home base path)

unfoldable pub try_proj_home_relative : Option Text → (Text → Bool) → Text → Text
try_proj_home_relative home exists path = elim (proj_home_relative home exists path) [
  | some p ↦ p
  | none ↦ path
]
