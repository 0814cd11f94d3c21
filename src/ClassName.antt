-- ===== src/ClassName.antt =====
-- `ClassName` of dtu/src/utils/class_name.rs: one type for Java and smali class names.
pub mod Conversions
pub mod Equality
pub mod Parts
mod Tests
use dtu.Prelude.{
  ℕ, ◌+◌, ◌-◌, Bool, not, ◌&&◌, none, some, [], ◌∷◌, ◌++◌, map, ltb, ◌==◌, if◌then◌else◌, take,
  drop, Text, same, contains, starts_with_char, ends_with_char, trim_start_matches,
  trim_end_matches, rsplit_once,
}

pub record ClassName : Type 0 where
  pub name : Text

-- The bytes of a character in UTF-8, and `str::len`.
abbrev pub utf8_len : ℕ → ℕ
utf8_len c = if ltb c 0x80 then 1 else if ltb c 0x800 then 2 else if ltb c 0x1_0000 then 3 else 4

abbrev pub byte_len : Text → ℕ
byte_len [] = 0
byte_len (c ∷ cs) = utf8_len c + byte_len cs

unfoldable pub class_is_smali : Text → Bool
class_is_smali s = starts_with_char s b'L' && ends_with_char s b';'

abbrev pub dot_to_slash : ℕ → ℕ
dot_to_slash c = if c == b'.' then b'/' else c

abbrev pub slash_to_dot : ℕ → ℕ
slash_to_dot c = if c == b'/' then b'.' else c

unfoldable pub java_name_to_smali : Text → Text
java_name_to_smali name = b'L' ∷ (map dot_to_slash name ++ b';' ∷ [])

-- The characters taken are counted by the bytes of the name. Every caller has a smali name, of two
-- bytes at least.
unfoldable pub smali_name_to_java : Text → Text
smali_name_to_java name = map slash_to_dot (take (byte_len name - 2) (drop 1 name))

unfoldable pub new : Text → ClassName
new name = record { name = if class_is_smali name then smali_name_to_java name else name }

unfoldable pub from_split_manifest : Text → Text → ClassName
unfolding new
from_split_manifest pkg name = if starts_with_char name b'.' then new (pkg ++ name) else new name

unfoldable pub is_smali : ClassName → Bool
unfolding class_is_smali
is_smali c = class_is_smali c.name

unfoldable pub get_java_name : ClassName → Text
unfolding is_smali
get_java_name c = if not (is_smali c) then c.name else smali_name_to_java c.name

unfoldable pub get_smali_name : ClassName → Text
unfolding is_smali
get_smali_name c = if is_smali c then c.name else java_name_to_smali c.name

-- `name.rfind(sep)` with the text behind it, or the text `otherwise`.
after_last : ℕ → Text → Text → Text
after_last sep otherwise s = elim (rsplit_once sep s) [ some (a, b) ↦ b | none ↦ otherwise ]

-- Without a separator a smali name is taken from behind its `L`.
unfoldable pub get_simple_class_name : ClassName → Text
unfolding is_smali after_last
get_simple_class_name c =
    if not (is_smali c)
    then after_last b'.' c.name c.name
    else trim_end_matches (after_last b'/' (drop 1 c.name) c.name) b';'

unfoldable pub pkg_as_java : ClassName → Text
unfolding get_java_name
pkg_as_java c = elim (rsplit_once b'.' (get_java_name c)) [ some (a, b) ↦ a | none ↦ [] ]

unfoldable pub has_pkg : ClassName → Bool
unfolding is_smali
has_pkg c =
    if is_smali c then contains c.name b'/' else contains (trim_start_matches c.name b'.') b'.'

unfoldable pub with_new_package : ClassName → Text → ClassName
unfolding new
with_new_package c pkg =
    let simple = get_simple_class_name c in
    new (
      if contains pkg b'/'
      then b'L' ∷ (trim_end_matches pkg b'/' ++ b'/' ∷ (simple ++ b';' ∷ []))
      else trim_end_matches pkg b'.' ++ b'.' ∷ simple)

unfoldable pub with_new_simple_class_name : ClassName → Text → ClassName
unfolding new
with_new_simple_class_name c name = new (pkg_as_java c ++ b'.' ∷ name)

-- `PartialEq` with a text, which is also that of two class names: `other` is then a name.
unfoldable pub eq : ClassName → Text → Bool
unfolding get_java_name get_smali_name
eq c other =
    if class_is_smali other then same (get_smali_name c) other else same (get_java_name c) other

-- The bytes that `Hash` feeds to the hasher, as a text.
unfoldable pub hash_input : ClassName → Text
unfolding get_smali_name
hash_input c = get_smali_name c

unfoldable pub to_sql : ClassName → Text
to_sql c = c.name

unfoldable pub from_sql : Text → ClassName
unfolding new
from_sql s = new s
