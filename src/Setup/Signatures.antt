-- ===== src/Setup/Signatures.antt =====
-- How `AddSystemServiceTask` of dtu/src/db/device/setup.rs finds the signatures of a service's methods.
-- The parser of smali is a library's: a file is the list of the lines that it gives, `none` an error.
pub mod Counting
pub mod Methods
pub mod Names
pub mod Tests
use dtu.Prelude.{
  ℕ, zero, suc, ◌+◌, ◌-◌, ◌*◌, ◌/◌, ◌%◌, ◌^◌, ◌≤◌, ◌<◌, String, ◌≡◌, refl, sym, ap, ap₂, ◌∙◌,
  fun_ext, ◌≢◌, ◌↔◌, ◌⊎◌, inl, inr, Bool, true, false, not, ◌&&◌, ◌||◌, Option, none, some, List,
  [], ◌∷◌, ◌++◌, map, append-nil, append_assoc, map-append, arith, ltb, leb, ◌==◌, if◌then◌else◌,
  ==_iff, ==-refl, Bool-cases, Option-cases, length, take, drop, all, is_empty, retain,
  length-append, all-append, retain-append, Text, codes, same, same_iff, same_refl, contains,
  contains-append, starts_with_char, ends_with_char, ends_with_char-append, starts_with,
  starts_with-append, trim_start_matches, trim_end_matches, split_once, rsplit_once, split_once_lem,
  split_once-append, rsplit_once-none, rsplit_once-append, rsplit_once-eq-none, rsplit_once-eq-some,
}
use dtu.UnknownBool.{ℤ}
use dtu.Setup.Rows.{SetupError, smalisa}
use dtu.Setup.Exec.{
  SetupResult, ok, err, World, Outside, Setup, pure, raise, continue, cancel_check, ◌>>=◌, ◌>>◌,
}

pub record MethodData : Type 0 where
  pub name : Text
  pub txn_id : ℤ
  pub sig : Option Text
  pub ret : Option Text

pub record MethodHeader : Type 0 where
  pub name : Text
  pub args : Text
  pub return_type : Text

-- The literals of a field's value; only the integers are told apart.
pub data Literal : Type 0 where
  int_literal : ℤ → Literal
  other_literal : Literal

-- A field, and what `to_literal` gives of its value.
pub record Field : Type 0 where
  pub name : Text
  pub literal : Option Literal

pub data SmaliLine : Type 0 where
  field_line : Field → SmaliLine
  method_header : MethodHeader → SmaliLine
  other_line : SmaliLine

abbrev pub update_from_header : MethodData → MethodHeader → MethodData
update_from_header m hdr = record m { sig = some hdr.args; ret = some hdr.return_type }

-- `methods.get_mut(hdr.name)`: the names of a map differ, so the first is the only one. The result says
-- whether there is one.
abbrev pub update_first : MethodHeader → List MethodData → Bool × List MethodData
update_first hdr [] = (false, [])
update_first hdr (m ∷ ms) =
    let (hit, rest) = update_first hdr ms in
    if same m.name hdr.name then (true, update_from_header m hdr ∷ ms) else (hit, m ∷ rest)

abbrev pub counted : ℕ → Bool × List MethodData → ℕ × List MethodData
counted mod_count (true, methods) = (mod_count + 1, methods)
counted mod_count (false, methods) = (mod_count, methods)

abbrev pub on_line : SmaliLine → ℕ × List MethodData → ℕ × List MethodData
on_line (method_header hdr) (mod_count, methods) = counted mod_count (update_first hdr methods)
on_line (field_line fld) s = s
on_line other_line s = s

abbrev pub on_parsed : Option SmaliLine → ℕ × List MethodData → Setup (ℕ × List MethodData)
on_parsed none s = raise smalisa
on_parsed (some line) s = pure (on_line line s)

abbrev pub all_counted : ℕ × List MethodData → Bool × List MethodData
all_counted (mod_count, methods) = (mod_count == length methods, methods)

abbrev pub reset : MethodData → MethodData
reset m = record m { sig = none; ret = none }

abbrev pub unless_done :
    (List MethodData → Setup (List MethodData)) → Bool × List MethodData → Setup (List MethodData)
unless_done next (true, methods) = pure methods
unless_done next (false, methods) = next methods

module _ (o : Outside) where
  unfoldable pub inner_loop :
      List (Option SmaliLine) → ℕ × List MethodData → Setup (ℕ × List MethodData)
  inner_loop [] s w = continue (cancel_check o w) (λ _. pure s)
  inner_loop (line ∷ lines) s w =
      continue (cancel_check o w) (λ _ v. continue (on_parsed line s v) (λ s'. inner_loop lines s'))

  unfoldable pub try_update_method_signatures_inner :
      SetupResult (List (Option SmaliLine)) → List MethodData → Setup (Bool × List MethodData)
  try_update_method_signatures_inner (err e) methods w = raise e w
  try_update_method_signatures_inner (ok lines) methods w =
      continue (inner_loop lines (0, methods) w) (λ s. pure (all_counted s))

  -- The other files of the interface; the one beside the stub is not read again.
  unfoldable pub try_files :
      Text
      → List (Text × SetupResult (List (Option SmaliLine)))
      → List MethodData
      → Setup (List MethodData)
  unfolding try_update_method_signatures_inner
  try_files iface_path [] methods w = (ok (map reset methods), w)
  try_files iface_path ((path, file) ∷ files) methods w = elim (same path iface_path) [
    | true ↦ try_files iface_path files methods w
    | false ↦
        continue (try_update_method_signatures_inner file methods w)
          (unless_done (λ ms. try_files iface_path files ms))
  ]

  -- The interface beside the stub is read first, if it is there.
  unfoldable pub try_update_method_signatures :
      Text
      → Option (SetupResult (List (Option SmaliLine)))
      → List (Text × SetupResult (List (Option SmaliLine)))
      → List MethodData
      → Setup (List MethodData)
  unfolding try_files
  try_update_method_signatures iface_path none files methods w =
      try_files iface_path files methods w
  try_update_method_signatures iface_path (some file) files methods w =
      continue (try_update_method_signatures_inner file methods w)
        (unless_done (λ ms. try_files iface_path files ms))
