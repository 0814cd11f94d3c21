-- ===== src/Escape/Tests.antt =====
-- Runs of the escaping on the inputs of the source's own tests, and the theorems at such inputs.
use dtu.Prelude.{◌≡◌, refl, ◌↔◌, false, arith, codes, contains}
use dtu.Escape.{replace_char, unreplace_char}
use dtu.Escape.RoundTrip.{replace_char_lossless_iff}

squash : replace_char (codes "/system/Test%a.apk") b'/' b'%' ≡ codes "%system%Test\\%a.apk"
unfolding replace_char
squash = refl

unsquash : unreplace_char (codes "%system%Test\\%a.apk") b'/' b'%' ≡ codes "/system/Test%a.apk"
unfolding unreplace_char
unsquash = refl

replace_char_lossless_iff_example :
    (unreplace_char (replace_char (codes "/a%b") b'/' b'%') b'/' b'%' ≡ codes "/a%b")
    ↔ (contains (codes "/a%b") 92 ≡ false)
replace_char_lossless_iff_example =
    replace_char_lossless_iff (codes "/a%b") b'/' b'%' (λ e. ground (arith, e))
      (λ e. ground (arith, e))
