-- ===== src/Smalisa/Strings/Files.antt =====
-- The strings of a whole file.
use dtu.Prelude.{
  or_assoc, ℕ, ◌≡◌, refl, sym, ap, ap₂, ◌∙◌, inl, inr, Bool, true, false, ◌||◌, Option, none, some,
  List, [], ◌∷◌, if◌then◌else◌, Bool-cases, Text,
}
use dtu.Smalisa.{
  Field, Line, class_line, super_line, interface_line, field_line, method_header, method_end,
  instruction, other_line, MethodString, SendChannels, Entry, on_raw_string, with_field, on_line,
  send_class, should_ignore_super, entry_loop, handle_entry, start, send_super, send_interface,
  send_method,
}
use dtu.Smalisa.Strings.{
  loads, used, uses_of, has_string, no_class, Covers, Effect, has_string-used,
}
use dtu.Smalisa.Strings.Effects.{
  or_false, quiet-Effect, send_field_strings, on_invocation-Effect, on_raw_string-Effect,
}

module _ (ignore : Text → Bool) where
  field_line-Effect :
      (field : Field) (e : Entry)
      → Covers e
      → Effect field.raw_string e (with_field field (on_raw_string field.raw_string e))
  field_line-Effect field e c =
      let f = on_raw_string-Effect ignore field.raw_string e c in
      let e' = on_raw_string field.raw_string e in
      let same_strings = send_field_strings e'.class field field.ty e'.channels in
      record {
        class_kept = f.class_kept;
        name_kept = f.name_kept;
        args_kept = f.args_kept;
        sent = λ x. ap (has_string x) same_strings ∙ f.sent x;
        covered = record {
          covers = λ k seen. ap (has_string _) same_strings ∙ f.covered.covers k seen;
        };
      }

  super_line-Effect :
      (sup : Text) (e : Entry)
      → Covers e
      → Effect none e (
          if should_ignore_super sup
          then e
          else record e { channels = send_super e.class sup e.channels })
  super_line-Effect sup e c = elim (Bool-cases (should_ignore_super sup)) [
    | inl b ↦ rw b (quiet-Effect e e.channels e.seen_calls refl c)
    | inr b ↦ rw b (quiet-Effect e _ e.seen_calls refl c)
  ]

  method_end-Covers : (e : Entry) → Covers (record e { seen_calls = []; seen_method_strings = [] })
  method_end-Covers e = record { covers = λ k h. cc }

  -- From the lines behind a line to those from it on.
  abbrev Sends : Entry → List (Option Line) → List MethodString → Type 0
  Sends e lines out =
      (x : MethodString)
      → has_string x out ≡ (
          has_string x e.channels.method_strings
          || has_string x (uses_of e.class (e.calling_method_name, e.calling_method_args) lines))

  used-Sends :
      (s : Option Text) (e e' : Entry) (lines : List (Option Line)) (out : List MethodString)
      → Effect s e e'
      → Sends e' lines out
      → (x : MethodString)
      → has_string x out ≡ (
          has_string x e.channels.method_strings
          || has_string x (
              used e.class
                (e.calling_method_name, e.calling_method_args)
                s
                (uses_of e.class (e.calling_method_name, e.calling_method_args) lines)))
  used-Sends s e e' lines out f rest x =
      let m : Text × Text = (e.calling_method_name, e.calling_method_args) in
      let same_uses : uses_of e'.class (e'.calling_method_name, e'.calling_method_args) lines
          ≡ uses_of e.class m lines =
        λ i. uses_of (f.class_kept i) (f.name_kept i, f.args_kept i) lines in
      let split = has_string-used x e.class m s (uses_of e.class m lines) in
      let sends = f.sent x in
      rest x
      ∙ ap₂ (λ (a b : Bool). a || b) sends (ap (has_string x) same_uses)
      ∙ (or_assoc (has_string x e.channels.method_strings) (has_string x (used e.class m s []))
          (has_string x (uses_of e.class m lines)))
      ∙ ap (λ (b : Bool). has_string x e.channels.method_strings || b) (sym split)

  entry_loop-Sends :
      (lines : List (Option Line)) (e : Entry)
      → no_class lines ≡ true
      → Covers e
      → Sends e lines (entry_loop ignore lines e).1.method_strings
  unfolding entry_loop on_line
  entry_loop-Sends [] e h c x = or_false (has_string x e.channels.method_strings)
  entry_loop-Sends (none ∷ lines) e h c x = or_false (has_string x e.channels.method_strings)
  entry_loop-Sends (some (class_line flags clazz) ∷ lines) e h c x = cc
  entry_loop-Sends (some (super_line sup) ∷ lines) e h c x =
      used-Sends none e _ lines _ (super_line-Effect sup e c)
        (entry_loop-Sends lines _ h (super_line-Effect sup e c).covered) x
  entry_loop-Sends (some (interface_line iface) ∷ lines) e h c x =
      let f = quiet-Effect e (send_interface e.class iface e.channels) e.seen_calls refl c in
      used-Sends none e _ lines _ f (entry_loop-Sends lines _ h f.covered) x
  entry_loop-Sends (some (field_line field) ∷ lines) e h c x =
      let f = field_line-Effect field e c in
      used-Sends field.raw_string e _ lines _ f (entry_loop-Sends lines _ h f.covered) x
  entry_loop-Sends (some (method_header mh) ∷ lines) e h c x =
      entry_loop-Sends lines
        (record e {
          calling_method_name = mh.name;
          calling_method_args = mh.args;
          channels = send_method e.class mh e.channels;
        })
        h (record { covers = c.covers }) x
  entry_loop-Sends (some method_end ∷ lines) e h c x =
      entry_loop-Sends lines (record e { seen_calls = []; seen_method_strings = [] }) h
        (method_end-Covers e) x
  entry_loop-Sends (some (instruction inv) ∷ lines) e h c x =
      let f = on_invocation-Effect ignore inv e c in
      used-Sends (loads inv) e _ lines _ f (entry_loop-Sends lines _ h f.covered) x
  entry_loop-Sends (some other_line ∷ lines) e h c x = entry_loop-Sends lines e h c x

-- Of a file that begins with its class, a class that is not ignored, and names no other, exactly those
-- strings are sent as strings of a method, beside what was sent before, that stand behind that method's
-- header and before the next one, up to an error of the parser: the string of each instruction that loads
-- one, and the string that a field has as its value, wherever its line stands. What stands before the
-- first header, or behind a header without a name, is not sent. What the set of strings seen leaves out is
-- nothing new.
pub handle_entry_strings :
    (ignore : Text → Bool) (flags : ℕ) (clazz : Text) (lines : List (Option Line))
    (channels : SendChannels)
    → ignore clazz ≡ false
    → no_class lines ≡ true
    → (x : MethodString)
    → has_string x
        (handle_entry ignore
          (some (some (class_line flags clazz) ∷ lines))
          channels).1.method_strings
      ≡ (has_string x channels.method_strings || has_string x (uses_of clazz ([], []) lines))
unfolding handle_entry entry_loop on_line
handle_entry_strings ignore flags clazz lines channels known h x =
    let e = record (start channels) { class = clazz; channels = send_class clazz flags channels } in
    rw (entry_loop, on_line, known)
      (entry_loop-Sends ignore lines e h (record { covers = λ k seen. cc }) x)
