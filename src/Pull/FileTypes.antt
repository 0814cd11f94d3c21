-- ===== src/Pull/FileTypes.antt =====
-- `FrameworkFileType` of dtu/src/decompile/mod.rs.
use dtu.Prelude.{ℕ, Option, none, some, Text, codes, same, if◌then◌else◌, Bool, true, false}
use dtu.DevicePath.{DevicePath, extension}

pub data FrameworkFileType : Type 0 where
  jar vdex dex apex apk : FrameworkFileType

-- The order of the types is that of their numbers.
abbrev pub discriminant : FrameworkFileType → ℕ
discriminant jar = 0
discriminant vdex = 1
discriminant dex = 2
discriminant apex = 3
discriminant apk = 255

abbrev pub of_extension : Text → Option FrameworkFileType
of_extension ext =
    if same ext (codes "jar")
    then some jar
    else if same ext (codes "vdex")
    then some vdex
    else if same ext (codes "dex")
    then some dex
    else if same ext (codes "apex")
    then some apex
    else if same ext (codes "apk")
    then some apk
    else none

abbrev pub type_of_extension : Option Text → Option FrameworkFileType
type_of_extension none = none
type_of_extension (some ext) = of_extension ext

unfoldable pub from_device_path : DevicePath → Option FrameworkFileType
unfolding extension
from_device_path device_path = type_of_extension (extension device_path)

abbrev pub is_apk : FrameworkFileType → Bool
is_apk apk = true
is_apk jar = false
is_apk vdex = false
is_apk dex = false
is_apk apex = false

abbrev pub is_vdex : FrameworkFileType → Bool
is_vdex vdex = true
is_vdex jar = false
is_vdex dex = false
is_vdex apex = false
is_vdex apk = false
