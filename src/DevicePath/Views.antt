-- ===== src/DevicePath/Views.antt =====
-- The raw and the squashed view of a path determine one another.
use dtu.Prelude.{◌≡◌, refl, sym, ap, ◌↔◌, true, false, arith, Text, same_refl, contains}
use dtu.Escape.{escape_char, replace_char}
use dtu.Escape.RoundTrip.{replace_char_lossless_iff, contains-replace_char, replace_char-injective}
use dtu.DevicePath.{
  DevicePath, new, from_squashed, squash, eq, to_sql, from_sql, os_path_sep_char,
  replaced_device_path_sep_char,
}

-- A path comes back from its squashed view exactly when it holds no backslash.
pub from_squashed-new_iff :
    (p : Text) → (from_squashed (new p).squashed_path ≡ new p) ↔ (contains p escape_char ≡ false)
unfolding new from_squashed
from_squashed-new_iff p =
    let lossless = replace_char_lossless_iff p b'/' b'%' (omega arith) (omega arith) in
    (
      λ e. lossless.0 (ap (λ (d : DevicePath). d.raw_path) e),
      λ h i. record {
        raw_path = lossless.1 h i;
        squashed_path = replace_char p os_path_sep_char replaced_device_path_sep_char;
      },
    )

-- The squashed view is a plain file name, and two paths share one only if they are one path.
pub squash_is_name :
    (p q : Text)
    → (contains (new p).squashed_path os_path_sep_char ≡ false)
      × (((new p).squashed_path ≡ (new q).squashed_path) ↔ (p ≡ q))
unfolding new
squash_is_name p q = (
  contains-replace_char p b'/' b'%' (omega arith) (omega arith),
  (
    replace_char-injective p q b'/' b'%' (omega arith) (omega arith) (omega arith),
    ap (λ s. replace_char s os_path_sep_char replaced_device_path_sep_char),
  ),
)

-- A path whose squashed view is that of its raw view, as `new` makes them.
abbrev pub IsConsistent : DevicePath → Type 0
IsConsistent d = d.squashed_path ≡ squash d.raw_path

-- A path that is stored and read back is equal to the one stored, and is consistent; it is the very
-- same exactly if the stored one was consistent.
pub from_sql-to_sql :
    (d : DevicePath)
    → (eq (from_sql (to_sql d)) d ≡ true)
      × IsConsistent (from_sql (to_sql d))
      × ((from_sql (to_sql d) ≡ d) ↔ IsConsistent d)
unfolding from_sql to_sql eq squash
from_sql-to_sql d = (
  same_refl d.raw_path,
  refl,
  (
    λ e. sym (ap (λ (x : DevicePath). x.squashed_path) e),
    λ h i. record { raw_path = d.raw_path; squashed_path = sym h i },
  ),
)
