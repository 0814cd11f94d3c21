-- ===== src/DevicePath/Tests.antt =====
-- Runs on the paths of the source's own tests, and the theorems at concrete paths.
use dtu.Prelude.{◌≡◌, refl, some, Text, codes, rsplit_once}
use dtu.DevicePath.{new, extension, device_file_name}
use dtu.Escape.{replace_char}

abbrev apk : Text
apk = codes "/system/priv-app/Test.apk"

new_runs : (new apk).squashed_path ≡ codes "%system%priv-app%Test.apk"
unfolding new replace_char
new_runs = refl

extension_runs : extension (new apk) ≡ some (codes "apk")
unfolding extension device_file_name new rsplit_once
extension_runs = refl
