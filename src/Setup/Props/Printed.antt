-- ===== src/Setup/Props/Printed.antt =====
-- Properties come back from their lines.
use dtu.Prelude.{
  ℕ, ◌≡◌, refl, sym, ap, ap₂, ◌∙◌, false, some, [], ◌∷◌, ◌++◌, append_assoc, arith, ◌==◌, ==-refl,
  is_empty, Text, codes, contains, contains-append, starts_with_char, ends_with_char,
  trim_start_matches, trim_end_matches, split_once, split_once-append,
}
use dtu.Shell.{is_whitespace}
use dtu.Setup.Props.{trim_start, trim_end, trim, named_prop, prop_of, parse_prop}

-- A text that begins and ends with a bracket.
trim_end-append :
    (s : Text) (c : ℕ) → is_whitespace c ≡ false → trim_end (s ++ c ∷ []) ≡ s ++ c ∷ []
unfolding trim_end
trim_end-append [] c h = rw h refl
trim_end-append (x ∷ []) c h = rw (trim_end-append [] c h) refl
trim_end-append (x ∷ y ∷ s) c h = rw (trim_end-append (y ∷ s) c h) refl

trim_end_matches-append :
    (s : Text) (c : ℕ) → ends_with_char s c ≡ false → trim_end_matches (s ++ c ∷ []) c ≡ s
trim_end_matches-append [] c h = rw (==-refl c) refl
trim_end_matches-append (x ∷ []) c h = ground (arith, h)
trim_end_matches-append (x ∷ y ∷ s) c h = rw (trim_end_matches-append (y ∷ s) c h) refl

trim_start_matches-cons :
    (s : Text) (d c : ℕ)
    → starts_with_char s c ≡ false
    → (d == c) ≡ false
    → trim_start_matches (c ∷ (s ++ d ∷ [])) c ≡ s ++ d ∷ []
trim_start_matches-cons [] d c h e = ground (arith, h, e)
trim_start_matches-cons (x ∷ s) d c h e = ground (arith, h, e)

-- The line of a property, in as many parts as it takes.
abbrev pub printed_prop : Text → Text → Text
printed_prop key value = b'[' ∷ (key ++ (codes "]: [" ++ (value ++ b']' ∷ [])))

-- A key is not empty, holds no `:`, and has no bracket at its ends; a value has none either.
pub record IsPrintable (key value : Text) : Type 0 where
  pub key_named : is_empty key ≡ false
  pub key_colon : contains key b':' ≡ false
  pub key_start : starts_with_char key b'[' ≡ false
  pub key_end : ends_with_char key b']' ≡ false
  pub value_start : starts_with_char value b'[' ≡ false
  pub value_end : ends_with_char value b']' ≡ false

trim-printed_prop : (key value : Text) → trim (printed_prop key value) ≡ printed_prop key value
unfolding trim_start is_whitespace
trim-printed_prop key value =
    let front : Text = b'[' ∷ (key ++ (codes "]: [" ++ value)) in
    let e : printed_prop key value ≡ front ++ b']' ∷ [] =
      ap (λ (s : Text). b'[' ∷ s) (sym (append_assoc key (codes "]: [" ++ value) (b']' ∷ []))) in
    ap trim_end e ∙ trim_end-append front b']' refl ∙ sym e

split_once-printed_prop :
    (key value : Text)
    → contains key b':' ≡ false
    → split_once b':' (printed_prop key value)
      ≡ some (b'[' ∷ (key ++ b']' ∷ []), b' ' ∷ b'[' ∷ (value ++ b']' ∷ []))
split_once-printed_prop key value h =
    ap (split_once b':') (
      ap (λ (s : Text). b'[' ∷ s)
        (sym (append_assoc key (b']' ∷ []) (b':' ∷ b' ' ∷ b'[' ∷ (value ++ b']' ∷ [])))))
    ∙ split_once-append b':' (b'[' ∷ (key ++ b']' ∷ [])) (b' ' ∷ b'[' ∷ (value ++ b']' ∷ []))
        (rw (contains-append b':' key (b']' ∷ [])) (rw h refl))

named_prop_lem :
    (key value : Text) → is_empty key ≡ false → named_prop key value ≡ some (key, value)
named_prop_lem [] value h = absurd (cc h)
named_prop_lem (c ∷ key) value h = refl

-- A property of one text comes back from its line.
pub parse_prop-printed_prop :
    (key value : Text)
    → IsPrintable key value
    → parse_prop (printed_prop key value) ≡ some (key, value)
unfolding parse_prop trim_start is_whitespace
parse_prop-printed_prop key value p =
    ap (λ (s : Text). prop_of (split_once b':' s)) (trim-printed_prop key value)
    ∙ ap prop_of (split_once-printed_prop key value p.key_colon)
    ∙ ap₂ named_prop
        (ap (λ (s : Text). trim_end_matches s b']')
            (trim_start_matches-cons key b']' b'[' p.key_start refl)
          ∙ trim_end_matches-append key b']' p.key_end)
        (ap (λ (s : Text). trim_end_matches s b']')
            (trim_start_matches-cons value b']' b'[' p.value_start refl)
          ∙ trim_end_matches-append value b']' p.value_end)
    ∙ named_prop_lem key value p.key_named
