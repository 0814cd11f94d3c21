-- ===== src/Pull/Files.antt =====
-- `NormalizedDeviceFile` of dtu/src/tasks/pull.rs, and the map of a device's files by their names.
pub mod Grouping
use dtu.Prelude.{
  ℕ, sort_by, Bool, ◌&&◌, Option, none, some, List, [], ◌∷◌, ◌++◌, ◌==◌, if◌then◌else◌, Text, codes,
  same, ends_with_char, rsplit_once,
}
use dtu.DevicePath.{DevicePath, new, device_file_name}
use dtu.Pull.FileTypes.{FrameworkFileType, discriminant, is_apk, apk}
use dtu.Pull.FileTypes

pub record NormalizedDeviceFile : Type 0 where
  pub device_path : DevicePath
  pub base_dir : Text
  pub fname : Text
  pub file_type : FrameworkFileType

-- `str::strip_prefix`.
abbrev pub strip_prefix : Text → Text → Option Text
strip_prefix s [] = some s
strip_prefix [] (p ∷ ps) = none
strip_prefix (c ∷ cs) (p ∷ ps) = if c == p then strip_prefix cs ps else none

abbrev pub without_boot : Text → Text
without_boot fname = elim (strip_prefix fname (codes "boot-")) [ none ↦ fname | some s ↦ s ]

abbrev pub normalized :
    DevicePath → Text → FrameworkFileType → Option (Text × Text) → Option NormalizedDeviceFile
normalized device_path base_dir file_type none = none
normalized device_path base_dir file_type (some (fname, suffix)) = some (record {
  device_path = device_path;
  base_dir = base_dir;
  fname = fname;
  file_type = file_type;
})

abbrev pub of_type : DevicePath → Text → Option FrameworkFileType → Option NormalizedDeviceFile
of_type device_path base_dir none = none
of_type device_path base_dir (some file_type) =
    normalized device_path base_dir file_type
      (rsplit_once b'.' (without_boot (device_file_name device_path)))

unfoldable pub from_device_path : Text → Text → Option NormalizedDeviceFile
unfolding FileTypes.from_device_path new device_file_name
from_device_path device_path_str base_dir =
    of_type (new device_path_str) base_dir (FileTypes.from_device_path (new device_path_str))

abbrev pub local_fs_name : NormalizedDeviceFile → Text
local_fs_name nf = nf.device_path.squashed_path

unfoldable pub get_normalized_name : NormalizedDeviceFile → Text
get_normalized_name nf =
    if ends_with_char nf.base_dir b'/'
    then nf.base_dir ++ nf.fname
    else nf.base_dir ++ (b'/' ∷ nf.fname)

-- `Ord`: the types decide.
abbrev pub rank : NormalizedDeviceFile → ℕ
rank nf = discriminant nf.file_type

abbrev pub FileMap : Type 0
FileMap = List (Text × List NormalizedDeviceFile)

unfoldable pub add_to_map : Text → NormalizedDeviceFile → FileMap → FileMap
unfolding sort_by
add_to_map name normed [] = (name, normed ∷ []) ∷ []
add_to_map name normed ((key, v) ∷ file_map) =
    if same key name
    then (key, sort_by rank (v ++ normed ∷ [])) ∷ file_map
    else (key, v) ∷ add_to_map name normed file_map

unfoldable pub on_normed_file_received :
    NormalizedDeviceFile → List DevicePath × FileMap → List DevicePath × FileMap
unfolding add_to_map get_normalized_name
on_normed_file_received normed (apks, file_map) =
    if is_apk normed.file_type
    then (apks ++ normed.device_path ∷ [], file_map)
    else (apks, add_to_map (get_normalized_name normed) normed file_map)

-- The loop of `start_file_thread`, over the files that arrive before the channel is closed.
unfoldable pub receive_all :
    List NormalizedDeviceFile → List DevicePath × FileMap → List DevicePath × FileMap
unfolding on_normed_file_received
receive_all [] s = s
receive_all (normed ∷ files) s = receive_all files (on_normed_file_received normed s)

-- Two files are equal if type, name and directory are.
abbrev pub eq : NormalizedDeviceFile → NormalizedDeviceFile → Bool
eq a b =
    (discriminant a.file_type == discriminant b.file_type && same a.fname b.fname)
    && same a.base_dir b.base_dir
