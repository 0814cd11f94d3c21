-- ===== src/Setup/Props.antt =====
-- `parse_device_props_output` and `parse_prop` of dtu/src/db/device/setup.rs: the properties that the
-- device prints, some of them on several lines. The properties are the insertions into the map, in
-- order.
pub mod Printed
pub mod RoundTrip
mod Tests
use dtu.Prelude.{
  ℕ, Option, none, some, List, [], ◌∷◌, ◌++◌, ◌==◌, if◌then◌else◌, Text, starts_with_char,
  ends_with_char, trim_start_matches, trim_end_matches, split_once,
}
use dtu.Shell.{is_whitespace}

-- `str::trim_start` and `str::trim_end`.
unfoldable pub trim_start : Text → Text
trim_start [] = []
trim_start (c ∷ s) = let rest = trim_start s in if is_whitespace c then rest else c ∷ s

abbrev pub push_kept : ℕ → Text → Text
push_kept c [] = if is_whitespace c then [] else c ∷ []
push_kept c (d ∷ s) = c ∷ d ∷ s

unfoldable pub trim_end : Text → Text
trim_end [] = []
trim_end (c ∷ s) = push_kept c (trim_end s)

abbrev pub trim : Text → Text
trim s = trim_end (trim_start s)

abbrev pub named_prop : Text → Text → Option (Text × Text)
named_prop [] value = none
named_prop (c ∷ key) value = some (c ∷ key, value)

abbrev pub prop_of : Option (Text × Text) → Option (Text × Text)
prop_of none = none
prop_of (some (raw_key, raw_value)) =
    named_prop (trim_end_matches (trim_start_matches raw_key b'[') b']')
      (trim_end_matches (trim_start_matches (trim_start raw_value) b'[') b']')

unfoldable pub parse_prop : Text → Option (Text × Text)
parse_prop line = prop_of (split_once b':' (trim line))

-- A line that is no property is dropped.
abbrev pub insert_prop : Option (Text × Text) → List (Text × Text) → List (Text × Text)
insert_prop none props = props
insert_prop (some p) props = p ∷ props

-- The loop, with the lines of a property that has not ended.
unfoldable pub parse_lines : Text → List Text → List (Text × Text)
parse_lines multiline [] = []
parse_lines [] (line ∷ lines) =
    let continued = parse_lines (line ++ 0x0a ∷ []) lines in
    let rest = parse_lines [] lines in
    if starts_with_char line b'['
    then if ends_with_char line b']' then insert_prop (parse_prop line) rest else continued
    else rest
parse_lines (c ∷ multiline) (line ∷ lines) =
    let continued = parse_lines (c ∷ (multiline ++ (line ++ 0x0a ∷ []))) lines in
    let rest = parse_lines [] lines in
    if ends_with_char line b']'
    then insert_prop (parse_prop (c ∷ (multiline ++ line))) rest
    else continued

-- `str::split_terminator` at the ends of the lines.
abbrev pub first_line : ℕ → List Text → List Text
first_line c [] = (c ∷ []) ∷ []
first_line c (line ∷ lines) = (c ∷ line) ∷ lines

unfoldable pub split_terminator : Text → List Text
split_terminator [] = []
split_terminator (c ∷ s) =
    let rest = split_terminator s in if c == 0x0a then [] ∷ rest else first_line c rest

unfoldable pub parse_device_props_output : Text → List (Text × Text)
parse_device_props_output output = parse_lines [] (split_terminator output)
