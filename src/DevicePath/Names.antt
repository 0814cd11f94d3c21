-- ===== src/DevicePath/Names.antt =====
-- The file name and the extension of a path.
use dtu.Prelude.{
  ◌≡◌, refl, ◌∙◌, false, none, some, ◌∷◌, ◌++◌, arith, Text, contains, contains-append,
  split_once-append, rsplit_once-none, rsplit_once-append,
}
use dtu.Escape.{replace_char}
use dtu.Escape.RoundTrip.{replace_char-append, contains-replace_char_other}
use dtu.DevicePath.{
  new, device_file_name, extension, as_squashed_str_no_ext, squash, device_path_sep_char,
}

-- The file name is what stands behind the last separator, or the whole path if there is none.
pub device_file_name_lem :
    (dir name : Text)
    → contains name device_path_sep_char ≡ false
    → (device_file_name (new (dir ++ device_path_sep_char ∷ name)) ≡ name)
      × (device_file_name (new name) ≡ name)
unfolding device_file_name new
device_file_name_lem dir name h =
    ground (arith, rsplit_once-append b'/' dir name h, rsplit_once-none b'/' name h)

-- The extension is what stands behind the last dot of the file name, whatever dots the directory
-- has; a file name with no dot has none.
pub extension_lem :
    (dir stem ext : Text)
    → contains (stem ++ b'.' ∷ ext) device_path_sep_char ≡ false
    → contains ext b'.' ≡ false
    → (extension (new (dir ++ device_path_sep_char ∷ (stem ++ b'.' ∷ ext))) ≡ some ext)
      × (extension (new (dir ++ device_path_sep_char ∷ ext)) ≡ none)
unfolding extension
extension_lem dir stem ext h k =
    let plain : contains ext b'/' ≡ false =
      ground (arith, contains-append b'/' stem (b'.' ∷ ext)) in
    ground (
      arith,
      device_file_name_lem dir (stem ++ b'.' ∷ ext) h,
      device_file_name_lem dir ext plain,
      rsplit_once-append b'.' stem ext k,
      rsplit_once-none b'.' ext k,
    )

replace_char_dot : (b : Text) → replace_char (b'.' ∷ b) b'/' b'%' ≡ b'.' ∷ replace_char b b'/' b'%'
unfolding replace_char
replace_char_dot b = refl

-- The squashed view without extension ends at the first dot of the whole path, a directory's dot
-- included: it is the squashed view of what stands before that dot.
pub as_squashed_str_no_ext_lem :
    (a b : Text) → contains a b'.' ≡ false → as_squashed_str_no_ext (new (a ++ b'.' ∷ b)) ≡ squash a
unfolding as_squashed_str_no_ext new squash
as_squashed_str_no_ext_lem a b h =
    let dotless =
      contains-replace_char_other a b'/' b'%' b'.' (omega arith) (omega arith) (omega arith) ∙ h in
    ground (
      arith,
      replace_char-append a (b'.' ∷ b) b'/' b'%',
      split_once-append b'.' (replace_char a b'/' b'%') (replace_char b b'/' b'%') dotless,
      replace_char_dot b,
    )
