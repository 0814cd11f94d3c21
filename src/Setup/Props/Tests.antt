-- ===== src/Setup/Props/Tests.antt =====
-- The theorem at two properties, one of two lines.
use dtu.Prelude.{◌≡◌, refl, [], ◌∷◌, ◌++◌, Text, codes}
use dtu.Setup.Props.{parse_device_props_output}
use dtu.Setup.Props.RoundTrip.{Property, IsProperty, parse_device_props_output-printed_lines}

abbrev version : Property
version = record { key = codes "ro.v"; first = codes "14"; more = [] }

abbrev banner : Property
banner = record { key = codes "b"; first = codes "x"; more = codes "[y" ∷ [] }

version-IsProperty : IsProperty version
version-IsProperty = record {
  printable = record {
    key_named = refl;
    key_colon = refl;
    key_start = refl;
    key_end = refl;
    value_start = refl;
    value_end = refl;
  };
  open_lines = tt;
}

banner-IsProperty : IsProperty banner
banner-IsProperty = record {
  printable = record {
    key_named = refl;
    key_colon = refl;
    key_start = refl;
    key_end = refl;
    value_start = refl;
    value_end = refl;
  };
  open_lines = (refl, tt);
}

abbrev output : Text
output = codes "[ro.v]: [14]" ++ (0x0a ∷ (codes "[b]: [x" ++ (0x0a ∷ (codes "[y]" ++ (0x0a ∷ [])))))

parse_device_props_output-printed_lines_example :
    parse_device_props_output output
    ≡ (codes "ro.v", codes "14") ∷ (codes "b", codes "x" ++ (0x0a ∷ codes "[y")) ∷ []
parse_device_props_output-printed_lines_example =
    parse_device_props_output-printed_lines (version ∷ banner ∷ [])
      (version-IsProperty, (banner-IsProperty, tt)) refl
