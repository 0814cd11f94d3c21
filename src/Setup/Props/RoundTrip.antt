-- ===== src/Setup/Props/RoundTrip.antt =====
-- The output of `getprop` comes back as its properties, those of several lines included.
use dtu.Prelude.{
  ℕ, ◌≡◌, refl, sym, ap, ap₂, ◌∙◌, true, false, not, List, [], ◌∷◌, ◌++◌, map, append_assoc, arith,
  ◌==◌, all, Text, codes, contains, ends_with_char, ends_with_char-append,
}
use dtu.Setup.Props.{
  parse_prop, insert_prop, parse_lines, split_terminator, parse_device_props_output,
}
use dtu.Setup.Props.Printed.{printed_prop, IsPrintable, parse_prop-printed_prop}

-- A property with the lines of its value, of which there is one at least.
pub record Property : Type 0 where
  pub key : Text
  pub first : Text
  pub more : List Text

abbrev pub joined_lines : Text → List Text → Text
joined_lines v [] = v
joined_lines v (w ∷ vs) = v ++ 0x0a ∷ joined_lines w vs

abbrev pub value_of : Property → Text
value_of p = joined_lines p.first p.more

abbrev pub last_lines : Text → List Text → List Text
last_lines v [] = (v ++ b']' ∷ []) ∷ []
last_lines v (w ∷ vs) = v ∷ last_lines w vs

abbrev pub key_lines : Text → Text → List Text → List Text
key_lines key v [] = printed_prop key v ∷ []
key_lines key v (w ∷ vs) = (b'[' ∷ (key ++ (codes "]: [" ++ v))) ∷ last_lines w vs

abbrev pub property_lines : Property → List Text
property_lines p = key_lines p.key p.first p.more

-- No line but the last ends with a bracket, which would end the property.
abbrev pub AreOpen : Text → List Text → Type 0
AreOpen v [] = Unit {0}
AreOpen v (w ∷ vs) = (ends_with_char v b']' ≡ false) × AreOpen w vs

pub record IsProperty (p : Property) : Type 0 where
  pub printable : IsPrintable p.key (value_of p)
  pub open_lines : AreOpen p.first p.more

ends_with_char-cons :
    (s : Text) (d : ℕ) (t : Text) (c : ℕ) → ends_with_char (s ++ d ∷ t) c ≡ ends_with_char (d ∷ t) c
ends_with_char-cons [] d t c = refl
ends_with_char-cons (x ∷ []) d t c = refl
ends_with_char-cons (x ∷ y ∷ s) d t c = ends_with_char-cons (y ∷ s) d t c

open_bracket : (v : Text) → ends_with_char v b']' ≡ false → ends_with_char (b'[' ∷ v) b']' ≡ false
open_bracket [] h = refl
open_bracket (x ∷ v) h = h

first_open :
    (key v : Text)
    → ends_with_char v b']' ≡ false
    → ends_with_char (b'[' ∷ (key ++ (codes "]: [" ++ v))) b']' ≡ false
first_open key v h =
    ap (λ (s : Text). ends_with_char (b'[' ∷ s) b']')
      (sym (append_assoc key (codes "]: ") (b'[' ∷ v)))
    ∙ ends_with_char-cons (b'[' ∷ (key ++ codes "]: ")) b'[' v b']'
    ∙ open_bracket v h

last_lines_lem :
    (c : ℕ) (m v : Text) (vs rest : List Text)
    → AreOpen v vs
    → parse_lines (c ∷ m) (last_lines v vs ++ rest)
      ≡ insert_prop (parse_prop (c ∷ (m ++ (joined_lines v vs ++ b']' ∷ [])))) (parse_lines [] rest)
unfolding parse_lines
last_lines_lem c m v [] rest open_lines = rw (ends_with_char-append v b']' b']') refl
last_lines_lem c m v (w ∷ vs) rest (here, below) = rw here (
    last_lines_lem c (m ++ (v ++ 0x0a ∷ [])) w vs rest below
    ∙ ap (λ (s : Text). insert_prop (parse_prop (c ∷ s)) (parse_lines [] rest))
        (simp (append_assoc) (refl)))

printed_closed : (key v : Text) → ends_with_char (printed_prop key v) b']' ≡ true
printed_closed key v =
    ap (λ (s : Text). ends_with_char (b'[' ∷ s) b']')
      (sym (append_assoc key (codes "]: [" ++ v) (b']' ∷ [])))
    ∙ ends_with_char-append (b'[' ∷ (key ++ (codes "]: [" ++ v))) b']' b']'

key_lines_lem :
    (key v : Text) (vs rest : List Text)
    → AreOpen v vs
    → parse_lines [] (key_lines key v vs ++ rest)
      ≡ insert_prop (parse_prop (printed_prop key (joined_lines v vs))) (parse_lines [] rest)
unfolding parse_lines
key_lines_lem key v [] rest open_lines = rw (printed_closed key v) refl
key_lines_lem key v (w ∷ vs) rest (here, below) = rw (first_open key v here) (
    last_lines_lem b'[' (key ++ (codes "]: [" ++ v) ++ 0x0a ∷ []) w vs rest below
    ∙ ap (λ (s : Text). insert_prop (parse_prop (b'[' ∷ s)) (parse_lines [] rest))
        (simp (append_assoc) (refl)))

split_terminator-append :
    (line s : Text)
    → contains line 0x0a ≡ false
    → split_terminator (line ++ 0x0a ∷ s) ≡ line ∷ split_terminator s
unfolding split_terminator
split_terminator-append [] s h = refl
split_terminator-append (c ∷ line) s h =
    let head : (c == 0x0a) ≡ false = ground (arith, h) in
    rw (head, split_terminator-append line s (ground (arith, h))) refl

-- What is printed: each line with its end.
abbrev pub printed_lines : List Text → Text
printed_lines [] = []
printed_lines (line ∷ lines) = line ++ 0x0a ∷ printed_lines lines

split_terminator-printed_lines :
    (lines : List Text)
    → all (λ line. not (contains line 0x0a)) lines ≡ true
    → split_terminator (printed_lines lines) ≡ lines
unfolding split_terminator
split_terminator-printed_lines [] h = refl
split_terminator-printed_lines (line ∷ lines) h =
    split_terminator-append line (printed_lines lines) (ground (arith, h))
    ∙ ap (λ (ls : List Text). line ∷ ls) (split_terminator-printed_lines lines (ground (arith, h)))

abbrev pub all_lines : List Property → List Text
all_lines [] = []
all_lines (p ∷ ps) = property_lines p ++ all_lines ps

abbrev pub AreProperties : List Property → Type 0
AreProperties [] = Unit {0}
AreProperties (p ∷ ps) = IsProperty p × AreProperties ps

parse_lines-all_lines :
    (ps : List Property)
    → AreProperties ps
    → parse_lines [] (all_lines ps) ≡ map (λ p. (Property.key p, value_of p)) ps
unfolding parse_lines
parse_lines-all_lines [] h = refl
parse_lines-all_lines (p ∷ ps) (here, below) =
    key_lines_lem p.key p.first p.more (all_lines ps) here.open_lines
    ∙ ap₂ insert_prop (parse_prop-printed_prop p.key (value_of p) here.printable)
        (parse_lines-all_lines ps below)

-- The printed properties are read in their order: each key is not empty, holds no `:` and has no
-- bracket at its ends, each value has none at its ends, on one line or on several, and no line of a
-- value but the last ends with a bracket.
pub parse_device_props_output-printed_lines :
    (ps : List Property)
    → AreProperties ps
    → all (λ line. not (contains line 0x0a)) (all_lines ps) ≡ true
    → parse_device_props_output (printed_lines (all_lines ps))
      ≡ map (λ p. (Property.key p, value_of p)) ps
unfolding parse_device_props_output
parse_device_props_output-printed_lines ps h lines =
    ap (parse_lines []) (split_terminator-printed_lines (all_lines ps) lines)
    ∙ parse_lines-all_lines ps h
