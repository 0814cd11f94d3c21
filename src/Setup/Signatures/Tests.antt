-- ===== src/Setup/Signatures/Tests.antt =====
-- The theorem at an interface of two methods.
use dtu.Prelude.{Text, ◌≡◌, refl, false, none, some, List, [], ◌∷◌, length, map, codes, all}
use dtu.UnknownBool.{pos}
use dtu.Setup.Exec.{ok, World, Outside}
use dtu.Setup.Signatures.Methods.{get_methods_from_stubs_file}
use dtu.Setup.Signatures.Names.{AreDistinct, txn_of, declared, stub_methods_declared}
use dtu.Setup.Signatures.{
  Field, int_literal, field_line, MethodData, MethodHeader, SmaliLine, method_header, other_line,
  try_update_method_signatures_inner,
}
use dtu.Setup.Signatures.Counting.{is_known, on_lines, signatures_all_known}

abbrev start : MethodData
start = record { name = codes "start"; txn_id = pos 1; sig = none; ret = none }

abbrev stop : MethodData
stop = record { name = codes "stop"; txn_id = pos 2; sig = none; ret = none }

abbrev stop_header : MethodHeader
stop_header = record { name = codes "stop"; args = codes "I"; return_type = codes "V" }

abbrev start_header : MethodHeader
start_header = record { name = codes "start"; args = []; return_type = codes "Z" }

abbrev interface_lines : List SmaliLine
interface_lines = other_line ∷ method_header stop_header ∷ method_header start_header ∷ []

abbrev outside : Outside
outside = record {
  refuses = λ rows row. none;
  commit_fails = λ rows. none;
  new_id = λ rows. length rows;
  cancel = λ n. false;
}

abbrev world : World
world = record { rows = []; events = []; checks = 0 }

signatures_all_known_example :
    (try_update_method_signatures_inner outside
      (ok (map some interface_lines))
      (start ∷ stop ∷ [])
      world).0
    ≡ ok (
      all is_known (on_lines interface_lines (0, start ∷ stop ∷ [])).1,
      (on_lines interface_lines (0, start ∷ stop ∷ [])).1,
    )
unfolding dtu.Setup.Signatures.Counting.count_known dtu.Prelude.same
signatures_all_known_example =
    signatures_all_known outside (λ n. refl) interface_lines (start ∷ stop ∷ []) world refl
      (refl, (refl, tt))

abbrev start_field : Field
start_field = record { name = codes "TRANSACTION_start"; literal = some (int_literal (pos 1)) }

abbrev stub_lines : List SmaliLine
stub_lines = field_line start_field ∷ other_line ∷ field_line start_field ∷ []

stub_methods_declared_example :
    (ms : List MethodData) × (w' : World) × (get_methods_from_stubs_file outside
        (record { path = codes "S.smali"; lines = ok (map some stub_lines) })
        world
      ≡ (ok ms, w'))
    × AreDistinct ms
    × ((name : Text) → txn_of name ms ≡ declared name stub_lines none)
stub_methods_declared_example =
    stub_methods_declared outside (λ n. refl) (codes "S.smali") stub_lines world
