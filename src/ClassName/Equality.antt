-- ===== src/ClassName/Equality.antt =====
-- Equality of class names with texts and with one another, and its agreement with the hash.
use dtu.Prelude.{◌≡◌, sym, ap, ◌∙◌, ◌↔◌, true, false, map, arith, Text, same_iff, contains}
use dtu.ClassName.{
  class_is_smali, dot_to_slash, java_name_to_smali, smali_name_to_java, new, eq, hash_input,
}
use dtu.ClassName.Conversions.{
  is_ascii, class_is_smali-smali, smali_name_to_java-java_name_to_smali,
}

-- A class that is held under its Java name, with no slash in it, as `new` holds it for the names
-- that Java allows.
abbrev pub IsJavaName : Text → Type 0
IsJavaName n = (class_is_smali n ≡ false) × (contains n b'/' ≡ false) × (is_ascii n ≡ true)

smali_form : (n : Text) → class_is_smali (java_name_to_smali n) ≡ true
unfolding java_name_to_smali
smali_form n = class_is_smali-smali (map dot_to_slash n)

java_name_to_smali-injective :
    (a b : Text) → IsJavaName a → IsJavaName b → java_name_to_smali a ≡ java_name_to_smali b → a ≡ b
java_name_to_smali-injective a b ha hb e =
    sym (smali_name_to_java-java_name_to_smali a ha.2 ha.1)
    ∙ ap smali_name_to_java e
    ∙ smali_name_to_java-java_name_to_smali b hb.2 hb.1

-- A class equals a text exactly when the text is its Java name or its smali name.
pub eq_iff :
    (a n : Text)
    → IsJavaName a
    → IsJavaName n
    → ((eq (new a) n ≡ true) ↔ (a ≡ n)) × ((eq (new a) (java_name_to_smali n) ≡ true) ↔ (a ≡ n))
unfolding eq new
eq_iff a n ha hn = (
  (
    λ e. (same_iff a n).0 (ground (arith, ha.0, hn.0)),
    λ e. ground (arith, ha.0, hn.0, (same_iff a n).1 e),
  ),
  (
    λ e. java_name_to_smali-injective a n ha hn (
        (same_iff (java_name_to_smali a) (java_name_to_smali n)).0
          (ground (arith, ha.0, smali_form n))),
    λ e. ground (
      arith,
      ha.0,
      smali_form n,
      (same_iff (java_name_to_smali a) (java_name_to_smali n)).1 (ap java_name_to_smali e),
    ),
  ),
)

-- Classes that are equal, by the test of a hash map, feed the hasher the same bytes, and only
-- those do: `eq` and `hash` agree on classes held under Java names.
pub hash_input_iff :
    (a b : Text)
    → IsJavaName a
    → IsJavaName b
    → (eq (new a) (new b).name ≡ true) ↔ (hash_input (new a) ≡ hash_input (new b))
unfolding hash_input eq new
hash_input_iff a b ha hb = (
  λ e.
      let p : a ≡ b = (same_iff a b).0 (ground (arith, ha.0, hb.0)) in
      ground (arith, ha.0, hb.0, p),
  λ e.
      let q : java_name_to_smali a ≡ java_name_to_smali b = ground (arith, ha.0, hb.0) in
      let p : a ≡ b = java_name_to_smali-injective a b ha hb q in
      ground (arith, ha.0, hb.0, (same_iff a b).1 p),
)
