-- ===== src/UnknownBool.antt =====
-- `UnknownBool` of dtu/src/unknownbool.rs: a Boolean that may be unknown, and its forms as a number,
-- an optional Boolean and a text.
pub mod Laws
use dtu.Prelude.{
  ℕ, Bool, true, false, not, ◌||◌, Option, none, some, ◌==◌, if◌then◌else◌, Text, codes,
}

-- An `i32`: `negsuc n` is -(n + 1).
pub data ℤ : Type 0 where
  pos : ℕ → ℤ
  negsuc : ℕ → ℤ

pub data UnknownBool : Type 0 where
  ub_unknown ub_true ub_false : UnknownBool

-- `UB_TRUE`, `UB_FALSE` and `UB_UNKNOWN`.
abbrev pub num_true : ℤ
num_true = pos 1

abbrev pub num_false : ℤ
num_false = negsuc 0

abbrev pub num_unknown : ℤ
num_unknown = pos 0

abbrev pub eq_i32 : ℤ → ℤ → Bool
eq_i32 (pos a) (pos b) = a == b
eq_i32 (negsuc a) (negsuc b) = a == b
eq_i32 _ _ = false

unfoldable pub from_i32 : ℤ → UnknownBool
from_i32 value =
    if eq_i32 value num_unknown
    then ub_unknown
    else if eq_i32 value num_false
    then ub_false
    else if eq_i32 value num_true
    then ub_true
    else ub_unknown

unfoldable pub to_numeric : UnknownBool → ℤ
to_numeric ub_unknown = num_unknown
to_numeric ub_false = num_false
to_numeric ub_true = num_true

-- `Display`.
unfoldable pub display : UnknownBool → Text
display ub_unknown = codes "unknown"
display ub_true = codes "true"
display ub_false = codes "false"

unfoldable pub from_bool : Bool → UnknownBool
from_bool value = if value then ub_true else ub_false

unfoldable pub from_option : Option Bool → UnknownBool
unfolding from_bool
from_option none = ub_unknown
from_option (some v) = from_bool v

unfoldable pub into_option : UnknownBool → Option Bool
into_option ub_unknown = none
into_option ub_false = some false
into_option ub_true = some true

unfoldable pub is_unknown : UnknownBool → Bool
is_unknown ub_unknown = true
is_unknown _ = false

unfoldable pub is_true : UnknownBool → Bool
is_true ub_true = true
is_true _ = false

unfoldable pub is_false : UnknownBool → Bool
is_false ub_false = true
is_false _ = false

unfoldable pub is_known : UnknownBool → Bool
unfolding is_unknown
is_known u = not (is_unknown u)

unfoldable pub is_false_or_unknown : UnknownBool → Bool
unfolding is_false is_unknown
is_false_or_unknown u = is_false u || is_unknown u

unfoldable pub is_true_or_unknown : UnknownBool → Bool
unfolding is_true is_unknown
is_true_or_unknown u = is_true u || is_unknown u

unfoldable pub bitand : UnknownBool → UnknownBool → UnknownBool
bitand ub_false rhs = ub_false
bitand ub_unknown rhs = ub_unknown
bitand ub_true rhs = rhs

unfoldable pub bitor : UnknownBool → UnknownBool → UnknownBool
bitor ub_true rhs = ub_true
bitor ub_unknown ub_unknown = ub_unknown
bitor ub_unknown ub_false = ub_unknown
bitor ub_unknown ub_true = ub_true
bitor ub_false rhs = rhs
