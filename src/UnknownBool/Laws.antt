-- ===== src/UnknownBool/Laws.antt =====
-- The numeric and optional forms carry the value, and the connectives against three-valued logic.
use dtu.Prelude.{ℕ, ◌≡◌, ◌≢◌, ◌↔◌, Bool, false, not, ◌&&◌, ◌||◌, Option, arith, leb, if◌then◌else◌}
use dtu.UnknownBool.{
  ℤ, UnknownBool, ub_unknown, ub_true, ub_false, num_true, num_false, from_i32, to_numeric,
  from_option, into_option, bitand, bitor, is_known, is_true, is_false, is_true_or_unknown,
  is_false_or_unknown,
}

-- A value comes back from its number and from its optional Boolean, and every optional Boolean comes
-- back from its value.
pub round_trips :
    (u : UnknownBool) (o : Option Bool)
    → (from_i32 (to_numeric u) ≡ u)
      × (from_option (into_option u) ≡ u)
      × (into_option (from_option o) ≡ o)
unfolding from_i32 to_numeric from_option into_option
round_trips u o = ground arith

-- A number is kept exactly if it is -1, 0 or 1; any other number reads as unknown.
pub to_numeric-from_i32 : (n : ℤ) → n ≢ num_true → n ≢ num_false → from_i32 n ≡ ub_unknown
unfolding from_i32
to_numeric-from_i32 n ht hf = ground arith

-- The connectives of three-valued logic, by the order false, unknown, true.
abbrev rank : UnknownBool → ℕ
rank ub_false = 0
rank ub_unknown = 1
rank ub_true = 2

abbrev pub lower : UnknownBool → UnknownBool → UnknownBool
lower a b = if leb (rank a) (rank b) then a else b

abbrev pub higher : UnknownBool → UnknownBool → UnknownBool
higher a b = if leb (rank a) (rank b) then b else a

-- `|` is the disjunction of three-valued logic.
pub bitor-higher : (a b : UnknownBool) → bitor a b ≡ higher a b
unfolding bitor
bitor-higher ub_false b = ground arith
bitor-higher ub_unknown b = ground arith
bitor-higher ub_true b = ground arith

abbrev pub IsLeftUnknown : UnknownBool → UnknownBool → Type 0
IsLeftUnknown a b = (a ≡ ub_unknown) × (b ≡ ub_false)

-- `&` differs from the conjunction of three-valued logic at one pair: unknown & false is unknown. So
-- it does not commute, and it is associative.
pub bitand-lower :
    (a b c : UnknownBool)
    → ((bitand a b ≢ lower a b) ↔ IsLeftUnknown a b)
      × (bitand (bitand a b) c ≡ bitand a (bitand b c))
unfolding bitand
bitand-lower a b c = ground arith

-- A value is in exactly one of the three states, and each test for two of them is their disjunction.
pub tests_lem :
    (u : UnknownBool)
    → (is_known u ≡ (is_true u || is_false u))
      × ((is_true u && is_false u) ≡ false)
      × (is_true_or_unknown u ≡ not (is_false u))
      × (is_false_or_unknown u ≡ not (is_true u))
unfolding is_known is_true is_false is_true_or_unknown is_false_or_unknown
tests_lem u = ground arith
