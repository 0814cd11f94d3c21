-- ===== src/Smalisa/Tests.antt =====
-- The theorem at a class of one method.
use dtu.Prelude.{◌≡◌, refl, false, ◌||◌, Option, none, some, List, [], ◌∷◌, codes}
use dtu.Smalisa.{
  reg_str, Line, class_line, method_header, method_end, instruction, MethodString, SendChannels,
  handle_entry,
}
use dtu.Smalisa.Strings.{has_string, uses_of}
use dtu.Smalisa.Strings.Files.{handle_entry_strings}

abbrev channels : SendChannels
channels = record {
  classes = [];
  supers = [];
  ifaces = [];
  methods = [];
  calls = [];
  strings = [];
  method_strings = [];
  class_fields = [];
  method_field_access = [];
}

abbrev const_string : Line
const_string = instruction (record {
  sets_field = false;
  gets_field = false;
  is_call = false;
  args = reg_str (codes "hi");
})

abbrev header : Line
header = method_header (record { name = codes "run"; args = []; return_type = none; access = 1 })

abbrev body : List (Option Line)
body = some header ∷ some const_string ∷ some const_string ∷ some method_end ∷ []

abbrev hi : MethodString
hi = record { method = codes "run"; method_args = []; string = codes "hi"; class = codes "La;" }

handle_entry_strings_example :
    has_string hi
      (handle_entry
        (λ c. false)
        (some (some (class_line 1 (codes "La;")) ∷ body))
        channels).1.method_strings
    ≡ (has_string hi channels.method_strings || has_string hi (uses_of (codes "La;") ([], []) body))
handle_entry_strings_example =
    handle_entry_strings (λ c. false) 1 (codes "La;") body channels refl refl hi
