-- ===== src/ClassName/Parts.antt =====
-- The package and the simple name of a class.
use dtu.Prelude.{
  ℕ, ◌≡◌, refl, inl, inr, true, false, [], ◌∷◌, ◌++◌, map, append_assoc, map-append, arith,
  Bool-cases, Text, contains, starts_with_char, ends_with_char, trim_end_matches, rsplit_once-none,
  rsplit_once-append,
}
use dtu.ClassName.{
  ClassName, class_is_smali, slash_to_dot, new, get_simple_class_name, pkg_as_java,
  with_new_package, with_new_simple_class_name, from_split_manifest,
}
use dtu.ClassName.Conversions.{is_ascii, class_is_smali-smali, smali_name_to_java_lem}

-- A class of a package has that package and that simple name, and a class of none has the empty
-- package and its whole name; the names hold no dot of their own and are no smali names.
pub parts_of :
    (pkg simple : Text)
    → class_is_smali (pkg ++ b'.' ∷ simple) ≡ false
    → class_is_smali simple ≡ false
    → contains simple b'.' ≡ false
    → (get_simple_class_name (new (pkg ++ b'.' ∷ simple)) ≡ simple)
      × (pkg_as_java (new (pkg ++ b'.' ∷ simple)) ≡ pkg)
      × (get_simple_class_name (new simple) ≡ simple)
      × (pkg_as_java (new simple) ≡ [])
unfolding new get_simple_class_name pkg_as_java
parts_of pkg simple hj hs hd =
    ground (arith, rsplit_once-append b'.' pkg simple hd, rsplit_once-none b'.' simple hd)

-- A new simple name replaces the old one and keeps the package; a class with no package gets a name
-- that begins with a dot.
pub with_new_simple_class_name_lem :
    (pkg simple name : Text)
    → class_is_smali (pkg ++ b'.' ∷ simple) ≡ false
    → class_is_smali simple ≡ false
    → contains simple b'.' ≡ false
    → (with_new_simple_class_name (new (pkg ++ b'.' ∷ simple)) name ≡ new (pkg ++ b'.' ∷ name))
      × (with_new_simple_class_name (new simple) name ≡ new (b'.' ∷ name))
unfolding with_new_simple_class_name
with_new_simple_class_name_lem pkg simple name hj hs hd =
    ground (arith, parts_of pkg simple hj hs hd)

trim_end-same : (s : Text) (c : ℕ) → ends_with_char s c ≡ false → trim_end_matches s c ≡ s
trim_end-same [] c h = refl
trim_end-same (x ∷ []) c h = ground arith
trim_end-same (x ∷ y ∷ s) c h = ground (arith, trim_end-same (y ∷ s) c h)

slashed-append :
    (pkg simple : Text)
    → map slash_to_dot (pkg ++ b'/' ∷ simple)
      ≡ map slash_to_dot pkg ++ b'.' ∷ map slash_to_dot simple
slashed-append pkg simple = map-append slash_to_dot pkg (b'/' ∷ simple)

no_slash : (s : Text) → contains s b'/' ≡ false → map slash_to_dot s ≡ s
no_slash [] h = refl
no_slash (c ∷ s) h = ground (arith, no_slash s)

-- A class moves to a package whichever way the package is spelled, with dots or with slashes: it is
-- held under the Java name made of the package, a dot and the class's own simple name. The package
-- ends in no separator, the simple name has no slash, and the Java name is ASCII and no smali name.
pub with_new_package_lem :
    (c : ClassName) (pkg : Text)
    → is_ascii (pkg ++ b'/' ∷ get_simple_class_name c) ≡ true
    → contains (get_simple_class_name c) b'/' ≡ false
    → ends_with_char pkg b'/' ≡ false
    → ends_with_char pkg b'.' ≡ false
    → class_is_smali (map slash_to_dot pkg ++ b'.' ∷ get_simple_class_name c) ≡ false
    → (with_new_package c pkg).name ≡ map slash_to_dot pkg ++ b'.' ∷ get_simple_class_name c
unfolding with_new_package
with_new_package_lem c pkg ha hs hslash hdot hj = elim (Bool-cases (contains pkg b'/')) [
  | inl slashed ↦ rw slashed (
      rw (trim_end-same pkg b'/' hslash) (
        rw (← append_assoc pkg (b'/' ∷ get_simple_class_name c) (b';' ∷ [])) (
          rw (class_is_smali-smali (pkg ++ b'/' ∷ get_simple_class_name c)) (
            rw (smali_name_to_java_lem (pkg ++ b'/' ∷ get_simple_class_name c)) (
              rw ha (
                rw (slashed-append pkg (get_simple_class_name c))
                  (rw (no_slash (get_simple_class_name c) hs))))))))
  | inr dotted ↦ rw dotted (
      rw (trim_end-same pkg b'.' hdot)
        (rw (no_slash pkg dotted) (rw (rw (no_slash pkg dotted) at hj))))
]

-- A name of a manifest entry that begins with a dot lies in the entry's package, and any other
-- stands for itself.
pub from_split_manifest_lem :
    (pkg name plain : Text)
    → starts_with_char plain b'.' ≡ false
    → (from_split_manifest pkg (b'.' ∷ name) ≡ new (pkg ++ b'.' ∷ name))
      × (from_split_manifest pkg plain ≡ new plain)
unfolding from_split_manifest
from_split_manifest_lem pkg name plain h = (refl, rw h)
