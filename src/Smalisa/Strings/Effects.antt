-- ===== src/Smalisa/Strings/Effects.antt =====
-- What one step of the analysis does to the strings of methods.
use dtu.Prelude.{
  ◌≡◌, refl, ap, ◌∙◌, inl, inr, Bool, false, ◌||◌, Option, none, some, List, ◌∷◌, arith, Bool-cases,
  Text,
}
use dtu.Smalisa.{
  InvArgs, one_reg_field, two_reg_field, var_reg_method, reg_str, other_args, Invocation, Field,
  FieldRef, MethodRef, SendChannels, Entry, FieldAccessOp, on_call, on_call_args, on_string_args,
  on_invocation, on_raw_string, access_of, has3, on_field_ref, on_field_access, field_of, op_of,
  send_typed_field, is_object_init, key_of,
}
use dtu.Smalisa.Strings.{string_of, loads, has_string, Covers, Effect, send_str-Effect}

pub or_false : (b : Bool) → b ≡ (b || false)
or_false b = ground arith

-- What sends no string of a method and forgets none.
pub quiet-Effect :
    (e : Entry) (ch : SendChannels) (calls : List (Text × Text × Text))
    → ch.method_strings ≡ e.channels.method_strings
    → Covers e
    → Effect none e (record e { channels = ch; seen_calls = calls })
quiet-Effect e ch calls h c = record {
  class_kept = refl;
  name_kept = refl;
  args_kept = refl;
  sent = λ x. ap (has_string x) h ∙ or_false (has_string x e.channels.method_strings);
  covered = record { covers = λ k seen. ap (has_string _) h ∙ c.covers k seen };
}

access_of_strings :
    (e : Entry) (fref : FieldRef) (op : FieldAccessOp) (ty : Option Text)
    → (access_of e fref op ty).method_strings ≡ e.channels.method_strings
access_of_strings e fref op none = refl
access_of_strings e fref op (some ty) = refl

pub send_field_strings :
    (class : Text) (field : Field) (ty : Option Text) (ch : SendChannels)
    → (send_typed_field class field ty ch).method_strings ≡ ch.method_strings
send_field_strings class field none ch = refl
send_field_strings class field (some ty) ch = refl

module _ (ignore : Text → Bool) where
  on_field_ref_strings :
      (e : Entry) (inv : Invocation) (r : Option FieldRef)
      → (on_field_ref ignore e inv r).method_strings ≡ e.channels.method_strings
  on_field_ref_strings e inv none = refl
  on_field_ref_strings e inv (some fref) = elim (Bool-cases (ignore fref.class)) [
    | inl i ↦ rw i refl
    | inr i ↦ rw i (access_of_strings e fref (op_of inv) fref.ty)
  ]

  on_call-Effect : (mref : MethodRef) (e : Entry) → Covers e → Effect none e (on_call ignore mref e)
  unfolding on_call
  on_call-Effect mref e c = elim (Bool-cases (is_object_init mref)) [
    | inl a ↦ rw (on_call, a) (quiet-Effect e e.channels e.seen_calls refl c)
    | inr a ↦ elim (Bool-cases (ignore mref.class)) [
      | inl b ↦ rw (on_call, a, b) (quiet-Effect e e.channels e.seen_calls refl c)
      | inr b ↦ elim (Bool-cases (has3 (key_of mref) e.seen_calls)) [
        | inl d ↦ rw (on_call, a, b, d) (quiet-Effect e e.channels e.seen_calls refl c)
        | inr d ↦ rw (on_call, a, b, d) (quiet-Effect e _ (key_of mref ∷ e.seen_calls) refl c)
      ]
    ]
  ]

  on_call_args-Effect :
      (args : InvArgs) (e : Entry) → Covers e → Effect none e (on_call_args ignore args e)
  on_call_args-Effect (var_reg_method mref) e c = on_call-Effect mref e c
  on_call_args-Effect (one_reg_field v) e c = quiet-Effect e e.channels e.seen_calls refl c
  on_call_args-Effect (two_reg_field v) e c = quiet-Effect e e.channels e.seen_calls refl c
  on_call_args-Effect (reg_str s) e c = quiet-Effect e e.channels e.seen_calls refl c
  on_call_args-Effect other_args e c = quiet-Effect e e.channels e.seen_calls refl c

  on_string_args-Effect :
      (args : InvArgs) (e : Entry) → Covers e → Effect (string_of args) e (on_string_args args e)
  on_string_args-Effect (reg_str s) e c = send_str-Effect s e c
  on_string_args-Effect (var_reg_method mref) e c = quiet-Effect e e.channels e.seen_calls refl c
  on_string_args-Effect (one_reg_field v) e c = quiet-Effect e e.channels e.seen_calls refl c
  on_string_args-Effect (two_reg_field v) e c = quiet-Effect e e.channels e.seen_calls refl c
  on_string_args-Effect other_args e c = quiet-Effect e e.channels e.seen_calls refl c

  pub on_invocation-Effect :
      (inv : Invocation) (e : Entry) → Covers e → Effect (loads inv) e (on_invocation ignore inv e)
  unfolding on_invocation
  on_invocation-Effect inv e c = elim (Bool-cases (inv.sets_field || inv.gets_field)) [
    | inl a ↦
        rw (on_invocation, a)
          (quiet-Effect e (on_field_access ignore e inv) e.seen_calls
            (on_field_ref_strings e inv (field_of inv.args)) c)
    | inr a ↦ elim (Bool-cases inv.is_call) [
      | inl b ↦ rw (on_invocation, a, b) (on_call_args-Effect inv.args e c)
      | inr b ↦ rw (on_invocation, a, b) (on_string_args-Effect inv.args e c)
    ]
  ]

  pub on_raw_string-Effect :
      (s : Option Text) (e : Entry) → Covers e → Effect s e (on_raw_string s e)
  on_raw_string-Effect none e c = quiet-Effect e e.channels e.seen_calls refl c
  on_raw_string-Effect (some s) e c = send_str-Effect s e c
