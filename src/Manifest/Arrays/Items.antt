-- ===== src/Manifest/Arrays/Items.antt =====
-- Which items of an array are read.
use dtu.Prelude.{
  ℕ, ◌≡◌, refl, inl, inr, false, Option, none, some, List, [], ◌∷◌, arith, ltb, if◌then◌else◌,
  Bool-cases, Text, codes, same, contains, split_once,
}
use dtu.Manifest.Xml.{Attribute, Event, start, text, close, goto_value_entry}
use dtu.Manifest.References.{parse, Files, XmlResolver, has_seen, is_reference}
use dtu.Manifest.Arrays.{array_crashed, array_resolved, item_reference, array_items, resolve_array}

split_once-eq-none : (sep : ℕ) (s : Text) → contains s sep ≡ false → split_once sep s ≡ none
unfolding split_once
split_once-eq-none sep [] h = refl
split_once-eq-none sep (c ∷ s) h = ground (arith, split_once-eq-none sep s)

module _ (base_dir : Text) (files : Files) {A : Type 0} (transform : Text → Option A) where
  -- Of an array of plain items only the first is read where nothing stands before it (`x`), and none
  -- where some text does (`y`), as white space: the loop meets the end of an item, or that text,
  -- where it wants the tag of the next item. It panics where the first item starts with a character
  -- of more than one byte. The first item is no reference and has no slash behind its first
  -- character, where it would be read as one.
  pub resolve_array_first :
      (x y : XmlResolver) (atts : List (Option Attribute)) (c : ℕ) (cs : Text) (v : A)
      (space : Option Text) (xs ys : List Event)
      → is_reference (c ∷ cs) ≡ false
      → contains cs b'/' ≡ false
      → transform (c ∷ cs) ≡ some v
      → goto_value_entry x.tag x.key x.xml
        ≡ some (start (codes "item") atts ∷ text (some (c ∷ cs)) ∷ close ∷ xs)
      → goto_value_entry y.tag y.key y.xml ≡ some (text space ∷ ys)
      → (resolve_array base_dir files transform x
          ≡ (if ltb c 128 then array_resolved (some (v ∷ [])) else array_crashed))
        × (resolve_array base_dir files transform y ≡ array_resolved (some []))
  unfolding resolve_array array_items item_reference parse has_seen same
  resolve_array_first x y atts c cs v space xs ys plain no_slash e ex ey =
      elim (Bool-cases (ltb c 128)) [
        | inl small ↦
            (rw (ex, plain, e, small, split_once-eq-none b'/' cs no_slash) refl, rw ey refl)
        | inr large ↦ (rw (ex, plain, e, large) refl, rw ey refl)
      ]
