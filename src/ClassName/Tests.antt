-- ===== src/ClassName/Tests.antt =====
-- Runs on the names of the source's own tests, and the theorems at concrete names.
use dtu.Prelude.{◌≡◌, refl, true, false, Text, codes, rsplit_once}
use dtu.ClassName.{new, smali_name_to_java, get_simple_class_name, has_pkg}
use dtu.ClassName.Equality.{IsJavaName}
use dtu.ClassName.{class_is_smali}

abbrev string_class : Text
string_class = codes "java.lang.String"

simple_names :
    (get_simple_class_name (new (codes "Lcom/test/Class$Stub;")) ≡ codes "Class$Stub")
    × (has_pkg (new (codes "LClass;")) ≡ false)
    × (has_pkg (new (codes "com.test.Class")) ≡ true)
unfolding get_simple_class_name has_pkg new class_is_smali smali_name_to_java rsplit_once
simple_names = (refl, refl, refl)

abbrev string_ok : IsJavaName (codes "java.lang.String")
unfolding class_is_smali
string_ok = (refl, refl, refl)
