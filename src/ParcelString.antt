-- ===== src/ParcelString.antt =====
-- Parcel strings: dtu/src/app_server/parcel_string.rs. A map is the list of its entries in the order
-- in which it is iterated. What std writes for an integer is an argument, and a float is what std
-- writes for it.
pub mod Nesting
mod Tests
use dtu.Prelude.{
  ℕ, zero, suc, ◌/◌, ◌%◌, Bool, true, false, ◌&&◌, ◌||◌, Option, none, some, List, [], ◌∷◌, ◌++◌,
  ltb, leb, ◌==◌, if◌then◌else◌, Text, codes, same,
}
use dtu.UnknownBool.{ℤ}
use dtu.Hex.{bytes_to_hex, digit_at, hex_bytes_lower}

mutual
  pub data ParcelStringElem : Type 0 where
    long int short : ℤ → ParcelStringElem
    byte : ℕ → ParcelStringElem
    bool : Bool → ParcelStringElem
    double float : Text → ParcelStringElem
    binder null : ParcelStringElem
    write_fd read_fd string : Text → ParcelStringElem
    raw_byte_array : List ℕ → ParcelStringElem
    hex_byte_array : Text → ParcelStringElem
    bundle : Fields → ParcelStringElem
    entry_map : Entries → ParcelStringElem
    list complex : Elems → ParcelStringElem
    message : ℤ → ℤ → ℤ → ParcelStringElem
    message_with : ℤ → ℤ → ℤ → Fields → ParcelStringElem

  pub data Elems : Type 0 where
    no_elems : Elems
    elem : ParcelStringElem → Elems → Elems

  pub data Fields : Type 0 where
    no_fields : Fields
    field : Text → ParcelStringElem → Fields → Fields

  pub data Entries : Type 0 where
    no_entries : Entries
    entry : ParcelStringElem → ParcelStringElem → Entries → Entries

-- `char::escape_default`: the digits of `\u{…}` are pushed from the lowest, at most eight.
abbrev pub hex_digits : ℕ → ℕ → Text → Text
hex_digits zero n digits = digits
hex_digits (suc k) n digits =
    let more = hex_digits k (n / 16) (digit_at hex_bytes_lower (n % 16) ∷ digits) in
    if ltb n 16 then digit_at hex_bytes_lower n ∷ digits else more

abbrev pub escape_default_one : ℕ → Text
escape_default_one c =
    if c == 0x09
    then codes "\\t"
    else if c == 0x0d
    then codes "\\r"
    else if c == 0x0a
    then codes "\\n"
    else if c == b'\'' || c == b'"' || c == b'\\'
    then b'\\' ∷ c ∷ []
    else if leb 0x20 c && leb c 0x7e
    then c ∷ []
    else codes "\\u{" ++ (hex_digits 8 c [] ++ b'}' ∷ [])

abbrev pub escape_default : Text → Text
escape_default [] = []
escape_default (c ∷ s) = escape_default_one c ++ escape_default s

-- `str::replace` of a character by a backslash and itself.
abbrev pub backslash_each : ℕ → Text → Text
backslash_each c [] = []
backslash_each c (x ∷ s) = (if x == c then b'\\' ∷ c ∷ [] else x ∷ []) ++ backslash_each c s

unfoldable pub escape_string : Text → Text
escape_string s = backslash_each b'%' (
    backslash_each b'>' (
      backslash_each b'|'
        (backslash_each b':' (backslash_each b',' (backslash_each b'=' (escape_default s))))))

abbrev pub show_bool : Bool → Text
show_bool true = codes "true"
show_bool false = codes "false"

module _ (show_int : ℤ → Text) (show_byte : ℕ → Text) where
  -- `Display`: the parts of a compound element stand behind its tag, with a separator between
  -- them. (`v.len() - 1` of a message's empty map panics where overflow is checked; else nothing is
  -- written, as here.)
  unfoldable mutual
    pub to_string : ParcelStringElem → Text
    to_string (long v) = codes "LONG" ++ show_int v
    to_string (int v) = codes "_INT" ++ show_int v
    to_string (short v) = codes "SHRT" ++ show_int v
    to_string (byte v) = codes "BYTE" ++ show_byte v
    to_string (bool v) = codes "BOOL" ++ show_bool v
    to_string (double v) = codes "DUBL" ++ v
    to_string (float v) = codes "_FLT" ++ v
    to_string binder = codes "BIND"
    to_string null = codes "NULL"
    to_string (write_fd v) = codes "WRFD" ++ escape_string v
    to_string (read_fd v) = codes "RDFD" ++ escape_string v
    to_string (string v) = codes "_STR" ++ escape_string v
    to_string (raw_byte_array v) = codes "BARR" ++ bytes_to_hex v
    to_string (hex_byte_array v) = codes "BARR" ++ v
    to_string (bundle v) = codes "BUND" ++ fields_string v
    to_string (entry_map v) = codes "_MAP" ++ entries_string v
    to_string (list v) = codes "_LST" ++ elems_string b':' v
    to_string (complex v) = codes "_CMB" ++ elems_string b'|' v
    to_string (message what arg1 arg2) =
        codes "_MSG" ++ (show_int what ++ b'%' ∷ (show_int arg1 ++ b'%' ∷ show_int arg2))
    to_string (message_with what arg1 arg2 v) =
        codes "_MSG"
        ++ (show_int what
            ++ b'%' ∷ (show_int arg1 ++ b'%' ∷ (show_int arg2 ++ b'%' ∷ fields_string v)))

    pub elems_string : ℕ → Elems → Text
    elems_string sep no_elems = []
    elems_string sep (elem e no_elems) = to_string e
    elems_string sep (elem e (elem f es)) = to_string e ++ sep ∷ elems_string sep (elem f es)

    pub fields_string : Fields → Text
    fields_string no_fields = []
    fields_string (field k v no_fields) = escape_string k ++ b'=' ∷ to_string v
    fields_string (field k v (field k' v' fs)) =
        (escape_string k ++ b'=' ∷ to_string v) ++ b':' ∷ fields_string (field k' v' fs)

    pub entries_string : Entries → Text
    entries_string no_entries = []
    entries_string (entry k v no_entries) = to_string k ++ b'=' ∷ to_string v
    entries_string (entry k v (entry k' v' es)) =
        (to_string k ++ b'=' ∷ to_string v) ++ b':' ∷ entries_string (entry k' v' es)

  -- `PartialEq`: the texts decide.
  unfoldable pub elem_eq : ParcelStringElem → ParcelStringElem → Bool
  elem_eq a b = same (to_string a) (to_string b)

  -- `build`: `elems.len() - 1` of no elements panics where overflow is checked.
  unfoldable pub build : Elems → Option Text
  build no_elems = none
  build (elem e es) = some (elems_string b',' (elem e es))
