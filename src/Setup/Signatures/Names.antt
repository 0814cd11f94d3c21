-- ===== src/Setup/Signatures/Names.antt =====
-- The names of the methods that a stub has.
use dtu.Prelude.{
  ℕ, if◌then◌else◌, ◌==◌, true, ◌++◌, ◌≡◌, refl, sym, ap, ◌∙◌, inl, inr, Option, Bool, false, ◌||◌,
  some, List, [], ◌∷◌, map, arith, Bool-cases, Text, same, same_iff, starts_with, codes, none,
}
use dtu.UnknownBool.{ℤ}
use dtu.Setup.Exec.{SetupResult, ok, World, Outside, pure, continue}
use dtu.Setup.Success.{cancel_check-Succeeds}
use dtu.Setup.Signatures.{
  Field, Literal, int_literal, other_literal, MethodData, SmaliLine, field_line, method_header,
  other_line,
}
use dtu.Setup.Signatures.Methods.{
  strip_prefix, parsed_field, insert_method, insert_some, from_field, on_stub_line, on_stub_parsed,
  stub_loop, get_methods_from_stubs_file,
}

abbrev pub has_name : Text → List MethodData → Bool
has_name name [] = false
has_name name (m ∷ ms) = same m.name name || has_name name ms

-- No name is there twice.
abbrev pub AreDistinct : List MethodData → Type 0
AreDistinct [] = Unit {0}
AreDistinct (m ∷ ms) = (has_name m.name ms ≡ false) × AreDistinct ms

insert_method-has_name :
    (name : Text) (meta : MethodData) (ms : List MethodData)
    → same meta.name name ≡ false
    → has_name name ms ≡ false
    → has_name name (insert_method meta ms) ≡ false
insert_method-has_name name meta [] other h = rw other refl
insert_method-has_name name meta (m ∷ ms) other h = elim (Bool-cases (same m.name meta.name)) [
  | inl e ↦ rw e (ground (arith, other, h))
  | inr e ↦
      let later = insert_method-has_name name meta ms other (ground (arith, h)) in
      rw e (ground (arith, h, later))
]

same-flip : (a b : Text) → same a b ≡ false → same b a ≡ false
same-flip a b h = elim (Bool-cases (same b a)) [
  | inl e ↦ let eq = (same_iff a b).1 (sym ((same_iff b a).0 e)) in ground (arith, eq, h)
  | inr e ↦ e
]

insert_method-AreDistinct :
    (meta : MethodData) (ms : List MethodData)
    → AreDistinct ms
    → AreDistinct (insert_method meta ms)
insert_method-AreDistinct meta [] d = (refl, tt)
insert_method-AreDistinct meta (m ∷ ms) (first, rest) = elim (Bool-cases (same m.name meta.name)) [
  | inl e ↦
      rw e (ap (λ (n : Text). has_name n ms) (sym ((same_iff m.name meta.name).0 e)) ∙ first, rest)
  | inr e ↦ rw e (
    insert_method-has_name m.name meta ms (same-flip m.name meta.name e) first,
    insert_method-AreDistinct meta ms rest,
  )
]

insert_some-AreDistinct :
    (meta : Option MethodData) (ms : List MethodData)
    → AreDistinct ms
    → AreDistinct (insert_some meta ms)
insert_some-AreDistinct none ms d = d
insert_some-AreDistinct (some meta) ms d = insert_method-AreDistinct meta ms d

on_stub_line-AreDistinct :
    (line : SmaliLine) (ms : List MethodData) → AreDistinct ms → AreDistinct (on_stub_line line ms)
on_stub_line-AreDistinct (field_line fld) ms d =
    elim (Bool-cases (starts_with fld.name (codes "TRANSACTION"))) [
      | inl e ↦ rw e (insert_some-AreDistinct (from_field fld) ms d)
      | inr e ↦ rw e d
    ]
on_stub_line-AreDistinct (method_header hdr) ms d = d
on_stub_line-AreDistinct other_line ms d = d

-- The number of the method of this name.
abbrev pub txn_of : Text → List MethodData → Option ℤ
txn_of name [] = none
txn_of name (m ∷ ms) = if same m.name name then some m.txn_id else txn_of name ms

-- The number that a field gives, if it is a number.
abbrev pub given : Option Literal → Option ℤ → Option ℤ
given (some (int_literal val)) before = some val
given _ before = before

-- What the stub's lines say of a name, behind what was said before: the last field that is named
-- `TRANSACTION_` and the name and has a number.
abbrev pub declared : Text → List SmaliLine → Option ℤ → Option ℤ
declared name [] before = before
declared name (field_line fld ∷ lines) before =
    declared name lines
      (if same fld.name (codes "TRANSACTION_" ++ name) then given fld.literal before else before)
declared name (method_header hdr ∷ lines) before = declared name lines before
declared name (other_line ∷ lines) before = declared name lines before

insert_method-txn_of :
    (name : Text) (meta : MethodData) (ms : List MethodData)
    → txn_of name (insert_method meta ms)
      ≡ (if same meta.name name then some meta.txn_id else txn_of name ms)
insert_method-txn_of name meta [] = refl
insert_method-txn_of name meta (m ∷ ms) = elim (Bool-cases (same m.name meta.name)) [
  | inl e ↦
      let names : m.name ≡ meta.name = (same_iff m.name meta.name).0 e in
      let both : same m.name name ≡ same meta.name name = ap (λ (n : Text). same n name) names in
      elim (Bool-cases (same meta.name name)) [
        | inl y ↦ rw (e, y) refl
        | inr n ↦ rw (e, both, n) refl
      ]
  | inr e ↦ elim (Bool-cases (same m.name name)) [
    | inl y ↦
        let other : same meta.name name ≡ false = distinct_names name meta m e y in
        rw (e, y, other) refl
    | inr n ↦ rw (e, n) (insert_method-txn_of name meta ms)
  ]
]
  where
    distinct_names :
        (name : Text) (meta m : MethodData)
        → same m.name meta.name ≡ false
        → same m.name name ≡ true
        → same meta.name name ≡ false
    distinct_names name meta m e y = elim (Bool-cases (same meta.name name)) [
      | inl z ↦
          let eq : m.name ≡ meta.name =
            (same_iff m.name name).0 y ∙ sym ((same_iff meta.name name).0 z) in
          let yes = (same_iff m.name meta.name).1 eq in cc (sym e ∙ yes)
      | inr z ↦ z
    ]

-- Whether a prefix's rest is the name.
abbrev rest_is : Text → Option Text → Bool
rest_is name none = false
rest_is name (some rest) = same rest name

strip_prefix_lem :
    (name prefix txt : Text) → same txt (prefix ++ name) ≡ rest_is name (strip_prefix txt prefix)
unfolding same
strip_prefix_lem name [] txt = refl
strip_prefix_lem name (p ∷ prefix) [] = refl
strip_prefix_lem name (p ∷ prefix) (c ∷ txt) = elim (Bool-cases (c == p)) [
  | inl e ↦ rw e (strip_prefix_lem name prefix txt)
  | inr e ↦ rw e refl
]

strip_prefix-eq-none :
    (prefix more txt : Text)
    → starts_with txt prefix ≡ false
    → strip_prefix txt (prefix ++ more) ≡ none
strip_prefix-eq-none [] more txt h = ground (arith, h)
strip_prefix-eq-none (p ∷ prefix) more [] h = refl
strip_prefix-eq-none (p ∷ prefix) more (c ∷ txt) h = elim (Bool-cases (c == p)) [
  | inl e ↦ rw e (strip_prefix-eq-none prefix more txt (ground (arith, e, h)))
  | inr e ↦ rw e refl
]

from_field_lem :
    (name : Text) (rest : Option Text) (literal : Option Literal) (ms : List MethodData)
    → txn_of name (insert_some (parsed_field rest literal) ms)
      ≡ (if rest_is name rest then given literal (txn_of name ms) else txn_of name ms)
from_field_lem name none literal ms = refl
from_field_lem name (some rest) none ms = ground arith
from_field_lem name (some rest) (some (int_literal val)) ms =
    insert_method-txn_of name (record { name = rest; txn_id = val; sig = none; ret = none }) ms
from_field_lem name (some rest) (some other_literal) ms = ground arith

field_lem :
    (name : Text) (fld : Field) (ms : List MethodData)
    → txn_of name (on_stub_line (field_line fld) ms) ≡ (
        if same fld.name (codes "TRANSACTION_" ++ name)
        then given fld.literal (txn_of name ms)
        else txn_of name ms)
field_lem name fld ms =
    let test = strip_prefix_lem name (codes "TRANSACTION_") fld.name in
    elim (Bool-cases (starts_with fld.name (codes "TRANSACTION"))) [
      | inl e ↦
          rw (e, test)
            (from_field_lem name (strip_prefix fld.name (codes "TRANSACTION_")) fld.literal ms)
      | inr e ↦
          let no_rest : strip_prefix fld.name (codes "TRANSACTION_") ≡ none =
            strip_prefix-eq-none (codes "TRANSACTION") (codes "_") fld.name e in
          rw (e, test, no_rest) refl
    ]

declared_lem :
    (name : Text) (line : SmaliLine) (lines : List SmaliLine) (ms : List MethodData)
    → declared name lines (txn_of name (on_stub_line line ms))
      ≡ declared name (line ∷ lines) (txn_of name ms)
declared_lem name (field_line fld) lines ms = ap (declared name lines) (field_lem name fld ms)
declared_lem name (method_header hdr) lines ms = refl
declared_lem name other_line lines ms = refl

module _ (o : Outside) (never : (n : ℕ) → o.cancel n ≡ false) where
  stub_loop_lem :
      (lines : List SmaliLine) (ms : List MethodData) (w : World)
      → AreDistinct ms
      → (ms' : List MethodData) × (w' : World) × (stub_loop o (map some lines) ms w ≡ (ok ms', w'))
        × AreDistinct ms'
        × ((name : Text) → txn_of name ms' ≡ declared name lines (txn_of name ms))
  unfolding stub_loop
  stub_loop_lem [] ms w d =
      let (v, e) = (cancel_check-Succeeds o never).succeeded w in
      (
        ms,
        v,
        ap (λ (r : SetupResult (Unit {0}) × World). continue r (λ _. pure ms)) e,
        d,
        λ name. refl,
      )
  stub_loop_lem (line ∷ lines) ms w d =
      let (v, e) = (cancel_check-Succeeds o never).succeeded w in
      let (ms', w', rest, d', said) =
        stub_loop_lem lines (on_stub_line line ms) v (on_stub_line-AreDistinct line ms d) in
      (
        ms',
        w',
        ap
              (λ (r : SetupResult (Unit {0}) × World). continue r (λ _ u.
                continue (on_stub_parsed (some line) ms u)
                  (λ next. stub_loop o (map some lines) next)))
              e
            ∙ rest,
        d',
        λ name. said name ∙ declared_lem name line lines ms,
      )

-- A stub whose lines all parse gives its methods, where nothing cancels: no two have one name, and a name
-- has a method exactly if a field is named `TRANSACTION_` and that name and has a number, which is the
-- method's, that of the last such field.
pub stub_methods_declared :
    (o : Outside)
    → ((n : ℕ) → o.cancel n ≡ false)
    → (path : Text) (lines : List SmaliLine) (w : World)
    → (ms : List MethodData) × (w' : World) × (get_methods_from_stubs_file o
          (record { path = path; lines = ok (map some lines) })
          w
        ≡ (ok ms, w'))
      × AreDistinct ms
      × ((name : Text) → txn_of name ms ≡ declared name lines none)
unfolding get_methods_from_stubs_file
stub_methods_declared o never path lines w = stub_loop_lem o never lines [] w tt
