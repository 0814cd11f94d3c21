-- ===== src/Hex/Tests.antt =====
-- The theorems at concrete bytes.
use dtu.Prelude.{ℕ, ◌≡◌, refl, some, List, [], ◌∷◌, codes}
use dtu.Hex.{bytes_to_hex, bytes_from_hex}
use dtu.Hex.RoundTrip.{bytes_from_hex-bytes_to_hex}

abbrev code : List ℕ
code = 0xca ∷ 0xfe ∷ 0x00 ∷ []

bytes_from_hex-bytes_to_hex_example :
    (bytes_from_hex (codes "cafe00") ≡ some code)
    × (bytes_from_hex (codes "0xcafe00") ≡ some code)
    × (bytes_from_hex (codes "0Xcafe00") ≡ some code)
unfolding bytes_to_hex
bytes_from_hex-bytes_to_hex_example = bytes_from_hex-bytes_to_hex code refl
