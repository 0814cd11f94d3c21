-- ===== src/ClassName/Conversions.antt =====
-- From Java names to smali names and back.
use dtu.Prelude.{
  ℕ, zero, suc, ◌+◌, ◌-◌, ◌≤◌, ◌<◌, ◌≡◌, refl, ap, ◌∙◌, inl, inr, Bool, true, false, List, [], ◌∷◌,
  ◌++◌, map, map-append, arith, ltb, if◌then◌else◌, Bool-cases, length, take, all, length-append,
  Text, contains, ends_with_char-append,
}
use dtu.ClassName.{
  byte_len, class_is_smali, dot_to_slash, slash_to_dot, java_name_to_smali, smali_name_to_java, new,
  from_sql, to_sql,
}

abbrev pub is_ascii : Text → Bool
is_ascii = all (λ c. ltb c 0x80)

-- A smali name around a body.
abbrev pub smali : Text → Text
smali body = b'L' ∷ (body ++ b';' ∷ [])

byte_len-ascii : (s : Text) → is_ascii s ≡ true → byte_len s ≡ length s
byte_len-ascii [] h = refl
byte_len-ascii (c ∷ s) h = ground (arith, byte_len-ascii s)

length-le-byte_len : (s : Text) → length s ≤ byte_len s
length-le-byte_len [] = omega arith
length-le-byte_len (c ∷ s) = ground (arith, length-le-byte_len s)

byte_len-not_ascii : (s : Text) → is_ascii s ≡ false → length s < byte_len s
byte_len-not_ascii [] h = cc
byte_len-not_ascii (c ∷ s) h = ground (arith, byte_len-not_ascii s, length-le-byte_len s)

byte_len-append : (s u : Text) → byte_len (s ++ u) ≡ byte_len s + byte_len u
byte_len-append [] u = omega arith
byte_len-append (c ∷ s) u = omega (arith, byte_len-append s u)

take-append {ℓ} : {A : Type ℓ} (xs ys : List A) → take (length xs) (xs ++ ys) ≡ xs
take-append [] ys = refl
take-append (x ∷ xs) ys = ap (◌∷◌ x) (take-append xs ys)

take-all {ℓ} : {A : Type ℓ} (n : ℕ) (xs : List A) → length xs ≤ n → take n xs ≡ xs
take-all zero [] h = refl
take-all zero (x ∷ xs) h = absurd (omega arith)
take-all (suc n) [] h = refl
take-all (suc n) (x ∷ xs) h = ap (◌∷◌ x) (take-all n xs (omega arith))

taken : (body : Text) → byte_len (smali body) - 2 ≡ byte_len body
taken body = omega (arith, byte_len-append body (b';' ∷ []))

-- A smali name with an ASCII body is stripped of its first and last character and its slashes become
-- dots. With any other body the count of bytes is too large, and the semicolon stays.
pub smali_name_to_java_lem :
    (body : Text)
    → smali_name_to_java (smali body)
      ≡ (if is_ascii body then map slash_to_dot body else map slash_to_dot body ++ b';' ∷ [])
unfolding smali_name_to_java
smali_name_to_java_lem body = elim (Bool-cases (is_ascii body)) [
  | inl yes_ascii ↦
      rw yes_ascii
        (rw (taken body ∙ byte_len-ascii body yes_ascii) (rw (take-append body (b';' ∷ []))))
  | inr not_ascii ↦
      let long : length (body ++ b';' ∷ []) ≤ byte_len body =
        omega (arith, byte_len-not_ascii body not_ascii, length-append body (b';' ∷ [])) in
      rw not_ascii (
        rw (taken body) (
          rw (take-all (byte_len body) (body ++ b';' ∷ []) long)
            (map-append slash_to_dot body (b';' ∷ []))))
]

slash_to_dot-dot_to_slash :
    (s : Text) → contains s b'/' ≡ false → map slash_to_dot (map dot_to_slash s) ≡ s
slash_to_dot-dot_to_slash [] h = refl
slash_to_dot-dot_to_slash (c ∷ s) h = ground (arith, slash_to_dot-dot_to_slash s)

dot_to_slash-slash_to_dot :
    (s : Text) → contains s b'.' ≡ false → map dot_to_slash (map slash_to_dot s) ≡ s
dot_to_slash-slash_to_dot [] h = refl
dot_to_slash-slash_to_dot (c ∷ s) h = ground (arith, dot_to_slash-slash_to_dot s)

is_ascii-dot_to_slash : (s : Text) → is_ascii (map dot_to_slash s) ≡ is_ascii s
is_ascii-dot_to_slash [] = refl
is_ascii-dot_to_slash (c ∷ s) = ground (arith, is_ascii-dot_to_slash s)

-- An ASCII Java name with no slash comes back from its smali form.
pub smali_name_to_java-java_name_to_smali :
    (name : Text)
    → is_ascii name ≡ true
    → contains name b'/' ≡ false
    → smali_name_to_java (java_name_to_smali name) ≡ name
unfolding java_name_to_smali
smali_name_to_java-java_name_to_smali name ha hs =
    smali_name_to_java_lem (map dot_to_slash name)
    ∙ rw (is_ascii-dot_to_slash name) (rw ha (slash_to_dot-dot_to_slash name hs))

-- An ASCII smali name with no dot comes back from its Java form.
pub java_name_to_smali-smali_name_to_java :
    (body : Text)
    → is_ascii body ≡ true
    → contains body b'.' ≡ false
    → java_name_to_smali (smali_name_to_java (smali body)) ≡ smali body
unfolding java_name_to_smali
java_name_to_smali-smali_name_to_java body ha hd =
    rw (smali_name_to_java_lem body) (rw ha (rw (dot_to_slash-slash_to_dot body hd)))

pub class_is_smali-smali : (body : Text) → class_is_smali (smali body) ≡ true
unfolding class_is_smali
class_is_smali-smali [] = refl
class_is_smali-smali (c ∷ body) = ends_with_char-append (c ∷ body) b';' b';'

-- A class is the same whichever way its name is spelled: the Java name, its smali form, and what a
-- database column gives back. The name is ASCII, has no slash and is no smali name itself.
pub new-java_name_to_smali :
    (name : Text)
    → is_ascii name ≡ true
    → contains name b'/' ≡ false
    → class_is_smali name ≡ false
    → (new (java_name_to_smali name) ≡ new name) × (from_sql (to_sql (new name)) ≡ new name)
unfolding new from_sql to_sql
new-java_name_to_smali name ha hs hn =
    let smali_form : class_is_smali (java_name_to_smali name) ≡ true =
      unfold java_name_to_smali in class_is_smali-smali (map dot_to_slash name) in
    ground (arith, smali_form, smali_name_to_java-java_name_to_smali name ha hs)
