-- ===== src/Manifest/References/Fuel.antt =====
-- `XmlResolver::resolve` ends: a reference is followed once, so a bound on the texts in the files is
-- enough fuel.
use dtu.Prelude.{
  ℕ, zero, suc, ◌+◌, ◌≤◌, ◌<◌, ◌≡◌, refl, sym, ap, ◌∙◌, inl, inr, true, false, not, ◌||◌, Option,
  none, some, List, [], ◌∷◌, ◌++◌, arith, if◌then◌else◌, Bool-cases, Option-cases, length, Text,
  same, same_iff, same_refl, split_once,
}
use dtu.Manifest.Xml.{Event, start, text, close, other, failed, goto_value_entry, text_of}
use dtu.Manifest.References.{
  ValueReference, parsed, parse, to_reference, Files, open_file, XmlResolver, has_seen,
  is_reference, Resolution, resolved, entry_text, value_text, get_xml_path_for, for_value_reference,
  resolver_for, follow, resolve,
}

-- The texts that a file's events hold, and those of all files.
abbrev pub event_texts : List Event → List Text
event_texts [] = []
event_texts (text (some t) ∷ xml) = t ∷ event_texts xml
event_texts (text none ∷ xml) = event_texts xml
event_texts (start name atts ∷ xml) = event_texts xml
event_texts (close ∷ xml) = event_texts xml
event_texts (other ∷ xml) = event_texts xml
event_texts (failed ∷ xml) = event_texts xml

unfoldable pub file_texts : Files → List Text
file_texts [] = []
file_texts ((path, xml) ∷ files) = event_texts xml ++ file_texts files

-- How many of the texts were not seen.
unseen : List Text → List Text → ℕ
unseen seen [] = 0
unseen seen (t ∷ ts) = (if has_seen seen t then 0 else 1) + unseen seen ts

unseen-le-length : (seen ts : List Text) → unseen seen ts ≤ length ts
unfolding unseen
unseen-le-length seen [] = omega arith
unseen-le-length seen (t ∷ ts) = ground (arith, unseen-le-length seen ts)

unseen-cons-le : (t : Text) (seen ts : List Text) → unseen (t ∷ seen) ts ≤ unseen seen ts
unfolding unseen has_seen
unseen-cons-le t seen [] = omega arith
unseen-cons-le t seen (u ∷ ts) = ground (arith, unseen-cons-le t seen ts)

unseen-cons-lt :
    (t : Text) (seen ts : List Text)
    → has_seen ts t ≡ true
    → has_seen seen t ≡ false
    → unseen (t ∷ seen) ts < unseen seen ts
unfolding unseen has_seen
unseen-cons-lt t seen [] mem new = cc
unseen-cons-lt t seen (u ∷ ts) mem new = elim (Bool-cases (same u t)) [
  | inl e ↦
      let u-eq : u ≡ t = (same_iff u t).0 e in
      let new' : has_seen seen u ≡ false = ap (has_seen seen) u-eq ∙ new in
      let found : same t u ≡ true = (same_iff t u).1 (sym u-eq) in
      rw (new', found) (ground (arith, unseen-cons-le t seen ts))
  | inr e ↦ ground (arith, e, mem, unseen-cons-lt t seen ts)
]

has_seen-append :
    (ts us : List Text) (t : Text) → has_seen (ts ++ us) t ≡ (has_seen ts t || has_seen us t)
unfolding has_seen
has_seen-append [] us t = refl
has_seen-append (u ∷ ts) us t = ground (arith, has_seen-append ts us t)

-- What is left behind an entry holds no other texts.
event_texts-goto_value_entry :
    (tag key : Text) (xml rest : List Event) (t : Text)
    → goto_value_entry tag key xml ≡ some rest
    → has_seen (event_texts rest) t ≡ true
    → has_seen (event_texts xml) t ≡ true
unfolding goto_value_entry has_seen
event_texts-goto_value_entry tag key [] rest t e h = cc
event_texts-goto_value_entry tag key (start name atts ∷ xml) rest t e h =
    ground (arith, event_texts-goto_value_entry tag key xml rest t)
event_texts-goto_value_entry tag key (text (some u) ∷ xml) rest t e h =
    ground (arith, event_texts-goto_value_entry tag key xml rest t e h)
event_texts-goto_value_entry tag key (text none ∷ xml) rest t e h =
    event_texts-goto_value_entry tag key xml rest t e h
event_texts-goto_value_entry tag key (close ∷ xml) rest t e h =
    event_texts-goto_value_entry tag key xml rest t e h
event_texts-goto_value_entry tag key (other ∷ xml) rest t e h =
    event_texts-goto_value_entry tag key xml rest t e h
event_texts-goto_value_entry tag key (failed ∷ xml) rest t e h = cc

event_texts-text_of :
    (xml : List Event) (t : Text) → text_of xml ≡ some t → has_seen (event_texts xml) t ≡ true
unfolding has_seen
event_texts-text_of [] t e = cc
event_texts-text_of (text (some u) ∷ xml) t e = ground (arith, same_refl t)
event_texts-text_of (text none ∷ xml) t e = cc
event_texts-text_of (start name atts ∷ xml) t e = cc
event_texts-text_of (close ∷ xml) t e = cc
event_texts-text_of (other ∷ xml) t e = cc
event_texts-text_of (failed ∷ xml) t e = cc

-- A value's text is among the texts of the file that its resolver reads.
event_texts-value_text :
    (x : XmlResolver) (t : Text) → value_text x ≡ some t → has_seen (event_texts x.xml) t ≡ true
unfolding value_text
event_texts-value_text x t e = elim (Option-cases (goto_value_entry x.tag x.key x.xml)) [
  | inl nothing ↦ absurd (ground (arith, nothing, e))
  | inr (rest, found) ↦
      event_texts-goto_value_entry x.tag x.key x.xml rest t found
        (event_texts-text_of rest t (ap entry_text (sym found) ∙ e))
]

file_texts-open_file :
    (files : Files) (path : Text) (xml : List Event) (t : Text)
    → open_file files path ≡ some xml
    → has_seen (event_texts xml) t ≡ true
    → has_seen (file_texts files) t ≡ true
unfolding open_file file_texts
file_texts-open_file [] path xml t e h = cc
file_texts-open_file ((p, first) ∷ files) path xml t e h =
    rw (has_seen-append (event_texts first) (file_texts files) t)
      (ground (arith, e, h, file_texts-open_file files path xml t))

-- The texts that a resolver may give are among those of the files.
abbrev pub IsWithin : Files → XmlResolver → Type 0
IsWithin files x = (t : Text) → value_text x ≡ some t → has_seen (file_texts files) t ≡ true

module _ (base_dir : Text) (files : Files) where
  pub for_value_reference-IsWithin :
      (vr : ValueReference) (y : XmlResolver)
      → for_value_reference base_dir files vr ≡ some y
      → IsWithin files y
  unfolding for_value_reference
  for_value_reference-IsWithin vr y e t h =
      elim (Option-cases (open_file files (get_xml_path_for base_dir files vr))) [
        | inl nothing ↦ absurd (ground (arith, nothing, e))
        | inr (xml, opened) ↦
            let y-eq : y.xml ≡ xml = ground (arith, opened, e) in
            file_texts-open_file files (get_xml_path_for base_dir files vr) xml t opened
              (rw (sym y-eq) (event_texts-value_text y t h))
      ]

  resolver_for-IsWithin :
      (vr : Option ValueReference) (y : XmlResolver)
      → resolver_for base_dir files vr ≡ some y
      → IsWithin files y
  resolver_for-IsWithin none y e = absurd (cc e)
  resolver_for-IsWithin (some vr) y e = for_value_reference-IsWithin vr y e

  -- No reference panics: its first character is one byte.
  pub parse-is_reference :
      (txt : Text)
      → is_reference txt ≡ true
      → (vr : Option ValueReference) × (parse txt ≡ parsed vr)
  unfolding parse
  parse-is_reference [] h = absurd (cc h)
  parse-is_reference (c ∷ from) h = (to_reference (split_once b'/' from), ground (arith, h))

  module _ {A : Type 0} (transform : Text → Option A) where
    abbrev pub Resolves : Resolution A → Type 0
    Resolves r = (v : Option A) × (seen : List Text) × (r ≡ resolved v seen)

    follow-Resolves :
        (txt : Text) (seen : List Text) (go : XmlResolver → Resolution A) (y : Option XmlResolver)
        → ((next : XmlResolver) → y ≡ some next → Resolves (go next))
        → Resolves (follow base_dir files transform txt seen go y)
    follow-Resolves txt seen go none h = (transform txt, seen, refl)
    follow-Resolves txt seen go (some next) h = h next refl

    -- With more fuel than texts that were not seen, a resolution ends.
    resolve-unseen :
        (fuel : ℕ) (x : XmlResolver) (seen : List Text)
        → unseen seen (file_texts files) < fuel
        → IsWithin files x
        → Resolves (resolve base_dir files transform fuel x seen)
    unfolding resolve
    resolve-unseen zero x seen small within = absurd (omega (arith, small))
    resolve-unseen (suc fuel) x seen small within = elim (Option-cases (value_text x)) [
      | inl nothing ↦ rw nothing (none, seen, refl)
      | inr (txt, found) ↦
          rw found (elim (Bool-cases (not (is_reference txt) || has_seen seen txt)) [
            | inl plain ↦ rw plain (transform txt, seen, refl)
            | inr reference ↦
                let (vr, read) = parse-is_reference txt (ground (arith, reference)) in
                rw (reference, read)
                  (follow-Resolves txt (txt ∷ seen)
                    (λ next. resolve base_dir files transform fuel next (txt ∷ seen))
                    (resolver_for base_dir files vr)
                    (λ next e.
                      resolve-unseen fuel next (txt ∷ seen)
                        (omega (
                          arith,
                          unseen-cons-lt txt seen (file_texts files) (within txt found)
                              (ground (arith, reference)),
                          small,
                        ))
                        (resolver_for-IsWithin vr next e)))
          ])
    ]

    -- One more than the texts of all files is enough fuel, whatever was seen; no reference panics.
    pub resolve_total :
        (vr : ValueReference) (x : XmlResolver) (seen : List Text)
        → for_value_reference base_dir files vr ≡ some x
        → Resolves (resolve base_dir files transform (suc (length (file_texts files))) x seen)
    resolve_total vr x seen e =
        resolve-unseen (suc (length (file_texts files))) x seen
          (omega (arith, unseen-le-length seen (file_texts files)))
          (for_value_reference-IsWithin vr x e)
