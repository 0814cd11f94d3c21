-- ===== src/Smalisa.antt =====
-- dtu/src/smalisa_wrapper/gen_csvs.rs: what the analysis of a smali file sends to the writers of the CSV
-- files. The parser of smali is a library's: a file is the list of the lines that it gives.
pub mod Strings
mod Tests
use dtu.Prelude.{
  ℕ, Bool, true, false, ◌&&◌, ◌||◌, Option, none, some, List, [], ◌∷◌, ◌++◌, if◌then◌else◌,
  is_empty, Text, codes, same, starts_with,
}

-- A reference to a method: `full_class` is what `full_class_str` gives.
pub record MethodRef : Type 0 where
  pub class : Text
  pub full_class : Text
  pub name : Text
  pub args : Text

-- A reference to a field: `ty` is what `as_smali_str` gives of its type.
pub record FieldRef : Type 0 where
  pub class : Text
  pub name : Text
  pub ty : Option Text

-- The arguments of an invocation that the code tells apart.
pub data InvArgs : Type 0 where
  one_reg_field two_reg_field : FieldRef → InvArgs
  var_reg_method : MethodRef → InvArgs
  reg_str : Text → InvArgs
  other_args : InvArgs

pub record Invocation : Type 0 where
  pub sets_field : Bool
  pub gets_field : Bool
  pub is_call : Bool
  pub args : InvArgs

pub record Field : Type 0 where
  pub name : Text
  pub ty : Option Text
  pub access : ℕ
  pub raw_string : Option Text

pub record MethodHeader : Type 0 where
  pub name : Text
  pub args : Text
  pub return_type : Option Text
  pub access : ℕ

pub data Line : Type 0 where
  class_line : ℕ → Text → Line
  super_line interface_line : Text → Line
  field_line : Field → Line
  method_header : MethodHeader → Line
  method_end : Line
  instruction : Invocation → Line
  other_line : Line

pub data FieldAccessOp : Type 0 where
  read write : FieldAccessOp

pub record CallInfo : Type 0 where
  pub source_class : Text
  pub source_method : Text
  pub source_args : Text
  pub target_class : Text
  pub target_method : Text
  pub target_args : Text

pub record MethodString : Type 0 where
  pub method : Text
  pub method_args : Text
  pub string : Text
  pub class : Text

pub record MethodFieldAccess : Type 0 where
  pub class : Text
  pub name : Text
  pub ty : Text
  pub method_class : Text
  pub method : Text
  pub method_args : Text
  pub op : FieldAccessOp

pub record MethodInfo : Type 0 where
  pub class : Text
  pub name : Text
  pub args : Text
  pub ret : Text
  pub access_flags : ℕ

pub record ClassField : Type 0 where
  pub class : Text
  pub name : Text
  pub ty : Text
  pub access_flags : ℕ

-- What was sent on each channel, in its order.
pub record SendChannels : Type 0 where
  pub classes : List (Text × ℕ)
  pub supers : List (Text × Text)
  pub ifaces : List (Text × Text)
  pub methods : List MethodInfo
  pub calls : List CallInfo
  pub strings : List Text
  pub method_strings : List MethodString
  pub class_fields : List ClassField
  pub method_field_access : List MethodFieldAccess

-- The variables of `handle_entry`.
pub record Entry : Type 0 where
  pub channels : SendChannels
  pub class : Text
  pub calling_method_name : Text
  pub calling_method_args : Text
  pub seen_calls : List (Text × Text × Text)
  pub seen_method_strings : List (Text × Text × Text)

abbrev pub same3 : Text × Text × Text → Text × Text × Text → Bool
same3 (a, b, c) (x, y, z) = same a x && (same b y && same c z)

abbrev pub has3 : Text × Text × Text → List (Text × Text × Text) → Bool
has3 k [] = false
has3 k (s ∷ seen) = same3 s k || has3 k seen

abbrev pub send_string : Text → SendChannels → SendChannels
send_string s ch = record ch { strings = ch.strings ++ s ∷ [] }

abbrev pub send_class : Text → ℕ → SendChannels → SendChannels
send_class class access_flags ch = record ch { classes = ch.classes ++ (class, access_flags) ∷ [] }

abbrev pub send_super : Text → Text → SendChannels → SendChannels
send_super child parent ch = record ch { supers = ch.supers ++ (child, parent) ∷ [] }

abbrev pub send_interface : Text → Text → SendChannels → SendChannels
send_interface class iface ch = record ch { ifaces = ch.ifaces ++ (class, iface) ∷ [] }

abbrev pub send_typed_field : Text → Field → Option Text → SendChannels → SendChannels
send_typed_field class field none ch = ch
send_typed_field class field (some ty) ch = record ch {
  class_fields =
      ch.class_fields
      ++ (record { class = class; name = field.name; ty = ty; access_flags = field.access }) ∷ [];
}

abbrev pub send_field : Text → Field → SendChannels → SendChannels
send_field class field = send_typed_field class field field.ty

abbrev pub or_void : Option Text → Text
or_void none = codes "V"
or_void (some ret) = ret

abbrev pub send_method : Text → MethodHeader → SendChannels → SendChannels
send_method class mh ch = record ch {
  methods =
      ch.methods
      ++ (record {
        class = class;
        name = mh.name;
        args = mh.args;
        ret = or_void mh.return_type;
        access_flags = mh.access;
      })
        ∷ [];
}

abbrev pub send_call : CallInfo → SendChannels → SendChannels
send_call c ch = record ch { calls = ch.calls ++ c ∷ [] }

abbrev pub send_method_string : MethodString → SendChannels → SendChannels
send_method_string s ch = record ch { method_strings = ch.method_strings ++ s ∷ [] }

abbrev pub field_of : InvArgs → Option FieldRef
field_of (one_reg_field v) = some v
field_of (two_reg_field v) = some v
field_of (var_reg_method m) = none
field_of (reg_str s) = none
field_of other_args = none

abbrev pub access_of : Entry → FieldRef → FieldAccessOp → Option Text → SendChannels
access_of e fref op none = e.channels
access_of e fref op (some ty) = record (e.channels) {
  method_field_access =
      e.channels.method_field_access
      ++ (record {
        class = fref.class;
        name = fref.name;
        ty = ty;
        method_class = e.class;
        method = e.calling_method_name;
        method_args = e.calling_method_args;
        op = op;
      })
        ∷ [];
}

-- The macro `send_str!`.
unfoldable pub send_str : Text → Entry → Entry
send_str s e =
    let e' = record e { channels = send_string s e.channels } in
    if is_empty e.calling_method_name
      || has3 (e.calling_method_name, e.calling_method_args, s) e.seen_method_strings
    then e'
    else record e' {
      seen_method_strings =
          (e.calling_method_name, e.calling_method_args, s) ∷ e.seen_method_strings;
      channels =
          send_method_string
            (record {
              method = e.calling_method_name;
              method_args = e.calling_method_args;
              string = s;
              class = e.class;
            })
            e'.channels;
    }

abbrev pub should_ignore_super : Text → Bool
should_ignore_super name = starts_with name (codes "Ljava/lang/Object;")

abbrev pub call_of : Entry → MethodRef → CallInfo
call_of e mref = record {
  source_class = e.class;
  source_method = e.calling_method_name;
  source_args = e.calling_method_args;
  target_class = mref.full_class;
  target_method = mref.name;
  target_args = mref.args;
}

abbrev pub is_object_init : MethodRef → Bool
is_object_init mref =
    same mref.full_class (codes "Ljava/lang/Object;") && same mref.name (codes "<init>")

abbrev pub key_of : MethodRef → Text × Text × Text
key_of mref = (mref.class, mref.name, mref.args)

abbrev pub op_of : Invocation → FieldAccessOp
op_of inv = if inv.sets_field then write else read

abbrev pub on_string_args : InvArgs → Entry → Entry
on_string_args (reg_str s) e = send_str s e
on_string_args (var_reg_method mref) e = e
on_string_args (one_reg_field v) e = e
on_string_args (two_reg_field v) e = e
on_string_args other_args e = e

abbrev pub on_raw_string : Option Text → Entry → Entry
on_raw_string none e = e
on_raw_string (some s) e = send_str s e

abbrev pub with_field : Field → Entry → Entry
with_field field e = record e { channels = send_field e.class field e.channels }

abbrev pub start : SendChannels → Entry
start channels = record {
  channels = channels;
  class = [];
  calling_method_name = [];
  calling_method_args = [];
  seen_calls = [];
  seen_method_strings = [];
}

module _ (class_ignore_func : Text → Bool) where
  abbrev pub on_field_ref : Entry → Invocation → Option FieldRef → SendChannels
  on_field_ref e inv none = e.channels
  on_field_ref e inv (some fref) =
      if class_ignore_func fref.class then e.channels else access_of e fref (op_of inv) fref.ty

  abbrev pub on_field_access : Entry → Invocation → SendChannels
  on_field_access e inv = on_field_ref e inv (field_of inv.args)

  unfoldable pub on_call : MethodRef → Entry → Entry
  on_call mref e =
      if is_object_init mref
      then e
      else if class_ignore_func mref.class
      then e
      else if has3 (key_of mref) e.seen_calls
      then e
      else record e {
        seen_calls = key_of mref ∷ e.seen_calls;
        channels = send_call (call_of e mref) e.channels;
      }

  abbrev pub on_call_args : InvArgs → Entry → Entry
  on_call_args (var_reg_method mref) e = on_call mref e
  on_call_args (one_reg_field v) e = e
  on_call_args (two_reg_field v) e = e
  on_call_args (reg_str s) e = e
  on_call_args other_args e = e

  unfoldable pub on_invocation : Invocation → Entry → Entry
  unfolding on_call send_str
  on_invocation inv e =
      if inv.sets_field || inv.gets_field
      then record e { channels = on_field_access e inv }
      else if inv.is_call
      then on_call_args inv.args e
      else on_string_args inv.args e

  -- One line; a class that is to be ignored ends the file, which is `none`.
  unfoldable pub on_line : Line → Entry → Option Entry
  unfolding on_invocation send_str
  on_line (class_line flags clazz) e =
      if class_ignore_func clazz
      then none
      else some (record e { class = clazz; channels = send_class clazz flags e.channels })
  on_line (super_line sup) e = some (
      if should_ignore_super sup
      then e
      else record e { channels = send_super e.class sup e.channels })
  on_line (interface_line iface) e =
      some (record e { channels = send_interface e.class iface e.channels })
  on_line (field_line field) e = some (with_field field (on_raw_string field.raw_string e))
  on_line (method_header mh) e = some (record e {
    calling_method_name = mh.name;
    calling_method_args = mh.args;
    channels = send_method e.class mh e.channels;
  })
  on_line method_end e = some (record e { seen_calls = []; seen_method_strings = [] })
  on_line (instruction inv) e = some (on_invocation inv e)
  on_line other_line e = some e

  -- `true` is a file read to its end, or up to a class to be ignored; `false` is a parse error, where the
  -- line is `none`.
  unfoldable pub entry_loop : List (Option Line) → Entry → Bool × SendChannels
  unfolding on_line
  entry_loop [] e = (true, e.channels)
  entry_loop (none ∷ lines) e = (false, e.channels)
  entry_loop (some line ∷ lines) e = elim (on_line line e) [
    | none ↦ (true, e.channels)
    | some e' ↦ entry_loop lines e'
  ]

  -- `none` is a file that cannot be opened.
  unfoldable pub handle_entry : Option (List (Option Line)) → SendChannels → Bool × SendChannels
  unfolding entry_loop
  handle_entry none channels = (false, channels)
  handle_entry (some lines) channels = entry_loop lines (start channels)
