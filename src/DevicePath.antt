-- ===== src/DevicePath.antt =====
-- `DevicePath` of dtu/src/utils/device_path.rs: a path on the device beside its squashed form.
pub mod Views
pub mod Names
mod Tests
use dtu.Prelude.{ℕ, ◌⊎◌, inl, inr, Bool, Option, none, some, Text, same, split_once, rsplit_once}
use dtu.Escape.{replace_char, unreplace_char}

-- `OS_PATH_SEP_CHAR` (not Windows), `DEVICE_PATH_SEP_CHAR` and `REPLACED_DEVICE_PATH_SEP_CHAR`.
abbrev pub os_path_sep_char : ℕ
os_path_sep_char = b'/'

abbrev pub device_path_sep_char : ℕ
device_path_sep_char = b'/'

abbrev pub replaced_device_path_sep_char : ℕ
replaced_device_path_sep_char = b'%'

pub record DevicePath : Type 0 where
  pub raw_path : Text
  pub squashed_path : Text

pub data PathError : Type 0 where
  bad_path : PathError

-- A path is made from either view.
unfoldable pub new : Text → DevicePath
new value = record {
  raw_path = value;
  squashed_path = replace_char value os_path_sep_char replaced_device_path_sep_char;
}

unfoldable pub from_squashed : Text → DevicePath
from_squashed value = record {
  raw_path = unreplace_char value os_path_sep_char replaced_device_path_sep_char;
  squashed_path = value;
}

-- `file_name` is what `Path::file_name` and `OsStr::to_str` give for the path.
unfoldable pub from_path : Option Text → DevicePath ⊎ PathError
from_path none = inr bad_path
from_path (some safe_name) = inl (from_squashed safe_name)

unfoldable pub device_file_name : DevicePath → Text
device_file_name d = elim (rsplit_once device_path_sep_char d.raw_path) [
  | some (dir, fname) ↦ fname
  | none ↦ d.raw_path
]

-- The file extension without the dot.
unfoldable pub extension : DevicePath → Option Text
extension d = elim (rsplit_once b'.' (device_file_name d)) [
  | some (stem, ext) ↦ some ext
  | none ↦ none
]

unfoldable pub as_squashed_str_no_ext : DevicePath → Text
as_squashed_str_no_ext d = elim (split_once b'.' d.squashed_path) [
  | none ↦ d.squashed_path
  | some (s, rest) ↦ s
]

unfoldable pub squash : Text → Text
squash device_path = replace_char device_path os_path_sep_char replaced_device_path_sep_char

-- `PartialEq`: the raw paths decide.
unfoldable pub eq : DevicePath → DevicePath → Bool
eq a b = same a.raw_path b.raw_path

-- What a database column or a serialized value holds, and the path read back from it.
unfoldable pub to_sql : DevicePath → Text
to_sql d = d.raw_path

unfoldable pub from_sql : Text → DevicePath
unfolding new
from_sql device_path = new device_path

-- `Into<DevicePath> for &DevicePath`.
unfoldable pub to_owned_path : DevicePath → DevicePath
unfolding new
to_owned_path d = new d.raw_path
