-- ===== src/Setup/Signatures/Methods.antt =====
-- How `AddSystemServiceTask` of dtu/src/db/device/setup.rs finds the methods of a service's stub and
-- adds them. A map is the list of its entries, the key of each being its name; the code visits them in
-- an order that the map does not tell, here that of the first insertions.
use dtu.Prelude.{
  ℕ, Option, none, some, List, [], ◌∷◌, map, ◌==◌, if◌then◌else◌, Text, codes, same, starts_with,
}
use dtu.ClassName.{ClassName}
use dtu.Setup.Rows.{
  smalisa, InsertSystemServiceMethod, system_service_method_row, found_system_service_method,
}
use dtu.Setup.Exec.{
  SetupResult, ok, Outside, Setup, pure, raise, continue, cancel_check, ◌>>=◌, ◌>>◌, on_event,
  insert, for_each,
}
use dtu.Setup.Signatures.{
  MethodData, Literal, int_literal, Field, SmaliLine, field_line, method_header, other_line,
  try_update_method_signatures,
}

-- `str::strip_prefix`.
abbrev pub strip_prefix : Text → Text → Option Text
strip_prefix s [] = some s
strip_prefix [] (p ∷ ps) = none
strip_prefix (c ∷ cs) (p ∷ ps) = if c == p then strip_prefix cs ps else none

abbrev pub parsed_field : Option Text → Option Literal → Option MethodData
parsed_field (some name) (some (int_literal val)) =
    some (record { name = name; txn_id = val; sig = none; ret = none })
parsed_field _ _ = none

abbrev pub from_field : Field → Option MethodData
from_field field = parsed_field (strip_prefix field.name (codes "TRANSACTION_")) field.literal

-- `methods.insert(meta.name, meta)`.
abbrev pub insert_method : MethodData → List MethodData → List MethodData
insert_method meta [] = meta ∷ []
insert_method meta (m ∷ ms) =
    let rest = insert_method meta ms in if same m.name meta.name then meta ∷ ms else m ∷ rest

abbrev pub insert_some : Option MethodData → List MethodData → List MethodData
insert_some none methods = methods
insert_some (some meta) methods = insert_method meta methods

abbrev pub on_stub_line : SmaliLine → List MethodData → List MethodData
on_stub_line (field_line fld) methods =
    if starts_with fld.name (codes "TRANSACTION")
    then insert_some (from_field fld) methods
    else methods
on_stub_line (method_header hdr) methods = methods
on_stub_line other_line methods = methods

abbrev pub on_stub_parsed : Option SmaliLine → List MethodData → Setup (List MethodData)
on_stub_parsed none methods = raise smalisa
on_stub_parsed (some line) methods = pure (on_stub_line line methods)

-- A file of a class: its path, and its lines if it can be opened.
pub record SmaliFile : Type 0 where
  pub path : Text
  pub lines : SetupResult (List (Option SmaliLine))

abbrev pub file_lines : SmaliFile → Text × SetupResult (List (Option SmaliLine))
file_lines f = (f.path, f.lines)

-- What the task knows: its service's number of the monitor, the stub's path if it is given, the files
-- that `find_files_for_class` finds, and the file beside another, if it exists.
pub record AddSystemServiceTask : Type 0 where
  pub task_id : ℕ
  pub stub_path : Option SmaliFile
  pub find_files_for_class : ClassName → List SmaliFile
  pub beside : SmaliFile → ClassName → Text × Option (SetupResult (List (Option SmaliLine)))

module _ (o : Outside) where
  unfoldable pub stub_loop : List (Option SmaliLine) → List MethodData → Setup (List MethodData)
  stub_loop [] methods w = continue (cancel_check o w) (λ _. pure methods)
  stub_loop (line ∷ lines) methods w =
      continue (cancel_check o w)
        (λ _ v. continue (on_stub_parsed line methods v) (λ ms. stub_loop lines ms))

  unfoldable pub get_methods_from_stubs_file : SmaliFile → Setup (List MethodData)
  unfolding stub_loop
  get_methods_from_stubs_file f w = continue (f.lines, w) (λ lines. stub_loop lines [])

  abbrev pub or_next :
      SmaliFile
      → Setup (Option (List MethodData × SmaliFile))
      → List MethodData
      → Setup (Option (List MethodData × SmaliFile))
  or_next f next [] = next
  or_next f next (m ∷ ms) = pure (some (m ∷ ms, f))

  -- The first of the files that has a method.
  unfoldable pub first_stub : List SmaliFile → Setup (Option (List MethodData × SmaliFile))
  unfolding get_methods_from_stubs_file
  first_stub [] w = (ok none, w)
  first_stub (f ∷ files) w =
      continue (get_methods_from_stubs_file f w) (or_next f (λ v. first_stub files v))

  module _ (t : AddSystemServiceTask) where
    unfoldable pub get_methods_and_stubs_file :
        ClassName → Setup (Option (List MethodData × SmaliFile))
    unfolding first_stub
    get_methods_and_stubs_file stub = elim t.stub_path [
      | none ↦ first_stub (t.find_files_for_class stub)
      | some p ↦ get_methods_from_stubs_file p >>= λ ms. pure (some (ms, p))
    ]

    abbrev pub method_row : ℕ → MethodData → InsertSystemServiceMethod
    method_row service_db_id m = record {
      system_service_id = service_db_id;
      transaction_id = m.txn_id;
      name = m.name;
      signature = m.sig;
      return_type = m.ret;
      smalisa_hash = none;
    }

    abbrev pub add_method : ℕ → MethodData → Setup (Unit {0})
    add_method service_db_id m =
        cancel_check o
        >> on_event (found_system_service_method t.task_id m.name m.txn_id m.sig m.ret)
        >> insert o (system_service_method_row (method_row service_db_id m))

    abbrev pub add_methods : ℕ → ClassName → Option (List MethodData × SmaliFile) → Setup (Unit {0})
    add_methods service_db_id iface none = pure tt
    add_methods service_db_id iface (some (methods, stub_file)) =
        let (iface_path, file) = t.beside stub_file iface in
        try_update_method_signatures o iface_path file
          (map file_lines (t.find_files_for_class iface)) methods
        >>= for_each (add_method service_db_id)

    unfoldable pub add_methods_from_iface_and_stub : ℕ → ClassName → ClassName → Setup (Unit {0})
    unfolding get_methods_and_stubs_file
    add_methods_from_iface_and_stub service_db_id iface stub =
        get_methods_and_stubs_file stub >>= add_methods service_db_id iface
