-- ===== src/Smalisa/Strings.antt =====
-- Which strings of a file are sent as strings of its methods.
pub mod Effects
pub mod Files
use dtu.Prelude.{
  ◌≡◌, refl, sym, ap, ◌∙◌, inl, inr, Bool, true, false, not, ◌&&◌, ◌||◌, Option, none, some, List,
  [], ◌∷◌, ◌++◌, arith, if◌then◌else◌, Bool-cases, is_empty, Text, same, same_iff, same_refl,
}
use dtu.Smalisa.{
  InvArgs, one_reg_field, two_reg_field, var_reg_method, reg_str, other_args, Invocation, Line,
  class_line, super_line, interface_line, field_line, method_header, method_end, instruction,
  other_line, MethodString, Entry, same3, has3, send_str,
}

-- The string of an instruction that loads one.
abbrev pub string_of : InvArgs → Option Text
string_of (reg_str s) = some s
string_of (var_reg_method mref) = none
string_of (one_reg_field v) = none
string_of (two_reg_field v) = none
string_of other_args = none

abbrev pub loads : Invocation → Option Text
loads inv = if inv.sets_field || inv.gets_field || inv.is_call then none else string_of inv.args

abbrev pub string_in : Line → Option Text
string_in (class_line flags clazz) = none
string_in (super_line sup) = none
string_in (interface_line iface) = none
string_in (field_line field) = field.raw_string
string_in (method_header mh) = none
string_in method_end = none
string_in (instruction inv) = loads inv
string_in other_line = none

abbrev pub is_class : Line → Bool
is_class (class_line flags clazz) = true
is_class (super_line sup) = false
is_class (interface_line iface) = false
is_class (field_line field) = false
is_class (method_header mh) = false
is_class method_end = false
is_class (instruction inv) = false
is_class other_line = false

-- The method that a line leaves one in.
abbrev pub method_after : Line → Text × Text → Text × Text
method_after (method_header mh) m = (mh.name, mh.args)
method_after (class_line flags clazz) m = m
method_after (super_line sup) m = m
method_after (interface_line iface) m = m
method_after (field_line field) m = m
method_after method_end m = m
method_after (instruction inv) m = m
method_after other_line m = m

abbrev pub used : Text → Text × Text → Option Text → List MethodString → List MethodString
used class (name, args) none uses = uses
used class (name, args) (some s) uses =
    if is_empty name
    then uses
    else (record { method = name; method_args = args; string = s; class = class }) ∷ uses

-- The strings of a class's lines, each with the method that it stands in, up to an error of the parser.
abbrev pub uses_of : Text → Text × Text → List (Option Line) → List MethodString
uses_of class m [] = []
uses_of class m (none ∷ lines) = []
uses_of class m (some line ∷ lines) =
    used class m (string_in line) (uses_of class (method_after line m) lines)

abbrev pub same_string : MethodString → MethodString → Bool
same_string a b =
    same3 (a.method, a.method_args, a.string) (b.method, b.method_args, b.string)
    && same a.class b.class

abbrev pub has_string : MethodString → List MethodString → Bool
has_string x [] = false
has_string x (y ∷ ys) = same_string y x || has_string x ys

abbrev pub no_class : List (Option Line) → Bool
no_class [] = true
no_class (none ∷ lines) = true
no_class (some line ∷ lines) = not (is_class line) && no_class lines

-- What was sent holds all that the method has seen.
pub record Covers (e : Entry) : Type 0 where
  pub covers :
      (k : Text × Text × Text)
      → has3 k e.seen_method_strings ≡ true
      → has_string
          (record { method = k.0; method_args = k.1; string = k.2; class = e.class })
          e.channels.method_strings
        ≡ true

has_string-append :
    (x : MethodString) (ys zs : List MethodString)
    → has_string x (ys ++ zs) ≡ (has_string x ys || has_string x zs)
has_string-append x [] zs = refl
has_string-append x (y ∷ ys) zs = ground (arith, has_string-append x ys zs)

same3_refl : (k : Text × Text × Text) → same3 k k ≡ true
same3_refl (a, b, c) = rw (same_refl a, same_refl b, same_refl c) refl

same3-eq : (k l : Text × Text × Text) → same3 k l ≡ true → k ≡ l
same3-eq (a, b, c) (x, y, z) h =
    let first = (same_iff a x).0 (ground (arith, h)) in
    let second = (same_iff b y).0 (ground (arith, h)) in
    let third = (same_iff c z).0 (ground (arith, h)) in λ i. (first i, second i, third i)

same_string-eq : (x y : MethodString) → same_string x y ≡ true → x ≡ y
same_string-eq x y h =
    let key =
      same3-eq (x.method, x.method_args, x.string) (y.method, y.method_args, y.string)
        (ground (arith, h)) in
    let class = (same_iff x.class y.class).0 (ground (arith, h)) in
    λ i. record { method = (key i).0; method_args = (key i).1; string = (key i).2; class = class i }

same_string_refl : (x : MethodString) → same_string x x ≡ true
same_string_refl x = rw (same3_refl (x.method, x.method_args, x.string), same_refl x.class) refl

pub has_string-used :
    (x : MethodString) (class : Text) (m : Text × Text) (s : Option Text) (uses : List MethodString)
    → has_string x (used class m s uses) ≡ (has_string x (used class m s []) || has_string x uses)
has_string-used x class (name, args) none uses = refl
has_string-used x class (name, args) (some s) uses = elim (Bool-cases (is_empty name)) [
  | inl e ↦ rw e refl
  | inr e ↦ rw e (ground arith)
]

-- The string of a method as it is sent.
abbrev sent_as : Entry → Text → MethodString
sent_as e s = record {
  method = e.calling_method_name;
  method_args = e.calling_method_args;
  string = s;
  class = e.class;
}

abbrev key : Entry → Text → Text × Text × Text
key e s = (e.calling_method_name, e.calling_method_args, s)

pub record Effect (s : Option Text) (e e' : Entry) : Type 0 where
  pub class_kept : e'.class ≡ e.class
  pub name_kept : e'.calling_method_name ≡ e.calling_method_name
  pub args_kept : e'.calling_method_args ≡ e.calling_method_args
  pub sent :
      (x : MethodString)
      → has_string x e'.channels.method_strings ≡ (
          has_string x e.channels.method_strings
          || has_string x (used e.class (e.calling_method_name, e.calling_method_args) s []))
  pub covered : Covers e'

send_new-sent :
    (s : Text) (e : Entry) (x : MethodString)
    → is_empty e.calling_method_name ≡ false
    → has_string x (e.channels.method_strings ++ sent_as e s ∷ []) ≡ (
        has_string x e.channels.method_strings
        || has_string x (used e.class (e.calling_method_name, e.calling_method_args) (some s) []))
send_new-sent s e x named =
    rw named (has_string-append x e.channels.method_strings (sent_as e s ∷ []))

send_seen-sent :
    (s : Text) (e : Entry) (x : MethodString)
    → Covers e
    → is_empty e.calling_method_name ≡ false
    → has3 (key e s) e.seen_method_strings ≡ true
    → has_string x e.channels.method_strings ≡ (
        has_string x e.channels.method_strings
        || has_string x (used e.class (e.calling_method_name, e.calling_method_args) (some s) []))
send_seen-sent s e x c named seen = elim (Bool-cases (same_string (sent_as e s) x)) [
  | inl q ↦
      let there =
        ap (λ (y : MethodString). has_string y e.channels.method_strings)
          (sym (same_string-eq (sent_as e s) x q))
        ∙ c.covers (key e s) seen in
      rw (named, there) refl
  | inr q ↦ rw (named, q) (ground arith)
]

send_new-Covers :
    (s : Text) (e : Entry) (k : Text × Text × Text)
    → Covers e
    → (same3 (key e s) k || has3 k e.seen_method_strings) ≡ true
    → has_string
        (record { method = k.0; method_args = k.1; string = k.2; class = e.class })
        (e.channels.method_strings ++ sent_as e s ∷ [])
      ≡ true
send_new-Covers s e k c h = elim (Bool-cases (same3 (key e s) k)) [
  | inl q ↦
      has_string-append (record { method = k.0; method_args = k.1; string = k.2; class = e.class })
        e.channels.method_strings (sent_as e s ∷ [])
      ∙ (let r = same_refl e.class in ground (arith, q, r))
  | inr q ↦
      has_string-append (record { method = k.0; method_args = k.1; string = k.2; class = e.class })
        e.channels.method_strings (sent_as e s ∷ [])
      ∙ (let there = c.covers k (ground (arith, q, h)) in ground (arith, there))
]

pub send_str-Effect : (s : Text) (e : Entry) → Covers e → Effect (some s) e (send_str s e)
unfolding send_str
send_str-Effect s e c = elim (Bool-cases (is_empty e.calling_method_name)) [
  | inl unnamed ↦
      rw (send_str, unnamed)
        (record {
          class_kept = refl;
          name_kept = refl;
          args_kept = refl;
          sent = λ x. rw unnamed (ground arith);
          covered = record { covers = c.covers };
        })
  | inr named ↦ elim (Bool-cases (has3 (key e s) e.seen_method_strings)) [
    | inl seen ↦
        rw (send_str, named, seen)
          (record {
            class_kept = refl;
            name_kept = refl;
            args_kept = refl;
            sent = λ x. send_seen-sent s e x c named seen;
            covered = record { covers = c.covers };
          })
    | inr new ↦
        rw (send_str, named, new)
          (record {
            class_kept = refl;
            name_kept = refl;
            args_kept = refl;
            sent = λ x. send_new-sent s e x named;
            covered = record { covers = λ k h. send_new-Covers s e k c h };
          })
  ]
]
