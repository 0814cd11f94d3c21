-- ===== src/ParcelString/Tests.antt =====
-- The theorem at a list of lists.
use dtu.Prelude.{ℕ, ◌≡◌, true, Text, codes}
use dtu.UnknownBool.{ℤ}
use dtu.ParcelString.{null, binder, list, no_elems, elem, to_string, elem_eq}
use dtu.ParcelString.Nesting.{list_nested}

abbrev show : ℤ → Text
show z = codes "7"

abbrev show_byte : ℕ → Text
show_byte b = codes "0"

list_nested_example :
    (to_string show show_byte (list (elem (list (elem null (elem binder no_elems))) no_elems))
      ≡ to_string show show_byte (list (elem (list (elem null no_elems)) (elem binder no_elems))))
    × (elem_eq show show_byte
          (list (elem (list (elem null (elem binder no_elems))) no_elems))
          (list (elem (list (elem null no_elems)) (elem binder no_elems)))
        ≡ true)
list_nested_example = list_nested show show_byte null binder no_elems no_elems no_elems
