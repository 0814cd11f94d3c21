-- ===== src/ParcelString/Nesting.antt =====
-- Nested lists in a parcel string.
use dtu.Prelude.{
  ℕ, ◌≡◌, refl, sym, ap, ◌∙◌, true, [], ◌∷◌, ◌++◌, append-nil, append_assoc, Text, codes, same_iff,
}
use dtu.UnknownBool.{ℤ}
use dtu.ParcelString.{
  ParcelStringElem, list, Elems, no_elems, elem, to_string, elems_string, elem_eq,
}

abbrev pub append_elems : Elems → Elems → Elems
append_elems no_elems ys = ys
append_elems (elem x xs) ys = elem x (append_elems xs ys)

module _ (show_int : ℤ → Text) (show_byte : ℕ → Text) where
  elems_string-append :
      (sep : ℕ) (x y : ParcelStringElem) (xs ys : Elems)
      → elems_string show_int show_byte sep (append_elems (elem x xs) (elem y ys))
        ≡ elems_string show_int show_byte sep (elem x xs)
          ++ sep ∷ elems_string show_int show_byte sep (elem y ys)
  unfolding elems_string
  elems_string-append sep x y no_elems ys = refl
  elems_string-append sep x y (elem x' xs) ys =
      ap (λ (s : Text). to_string show_int show_byte x ++ sep ∷ s)
        (elems_string-append sep x' y xs ys)
      ∙ sym (
          append_assoc (to_string show_int show_byte x)
            (sep ∷ elems_string show_int show_byte sep (elem x' xs))
            (sep ∷ elems_string show_int show_byte sep (elem y ys)))

  abbrev text_of : Elems → Text
  text_of es = elems_string show_int show_byte b':' es

  -- What stands behind the first element.
  tail_text : Elems → Text
  tail_text no_elems = []
  tail_text (elem z zs) = b':' ∷ text_of (elem z zs)

  elems_string-elem :
      (x : ParcelStringElem) (zs : Elems)
      → text_of (elem x zs) ≡ to_string show_int show_byte x ++ tail_text zs
  unfolding elems_string tail_text
  elems_string-elem x no_elems = sym (append-nil (to_string show_int show_byte x))
  elems_string-elem x (elem z zs) = refl

  append_elems-nil : (ys : Elems) → append_elems ys no_elems ≡ ys
  append_elems-nil no_elems = refl
  append_elems-nil (elem y ys) = ap (elem y) (append_elems-nil ys)

  elems_string-tail :
      (y : ParcelStringElem) (ys zs : Elems)
      → text_of (append_elems (elem y ys) zs) ≡ text_of (elem y ys) ++ tail_text zs
  unfolding tail_text
  elems_string-tail y ys no_elems =
      ap (λ (es : Elems). text_of (elem y es)) (append_elems-nil ys)
      ∙ sym (append-nil (text_of (elem y ys)))
  elems_string-tail y ys (elem z zs) = elems_string-append b':' y z ys zs

  to_string-list :
      (es : Elems) → to_string show_int show_byte (list es) ≡ codes "_LST" ++ text_of es
  unfolding to_string
  to_string-list es = refl

  list_nested_text :
      (x y : ParcelStringElem) (xs ys zs : Elems)
      → to_string show_int show_byte (list (elem (list (append_elems (elem x xs) (elem y ys))) zs))
        ≡ to_string show_int show_byte
            (list (elem (list (elem x xs)) (append_elems (elem y ys) zs)))
  list_nested_text x y xs ys zs =
      to_string-list (elem (list (append_elems (elem x xs) (elem y ys))) zs)
      ∙ ap (λ (s : Text). codes "_LST" ++ s)
          (elems_string-elem (list (append_elems (elem x xs) (elem y ys))) zs
            ∙ ap (λ (s : Text). s ++ tail_text zs)
                (to_string-list (append_elems (elem x xs) (elem y ys))
                  ∙ ap (λ (s : Text). codes "_LST" ++ s) (elems_string-append b':' x y xs ys))
            ∙ ap (λ (s : Text). codes "_LST" ++ s)
                (append_assoc (text_of (elem x xs)) (b':' ∷ text_of (elem y ys)) (tail_text zs))
            ∙ ap (λ (s : Text). codes "_LST" ++ (text_of (elem x xs) ++ b':' ∷ s))
                (sym (elems_string-tail y ys zs))
            ∙ sym (
                elems_string-elem (list (elem x xs)) (append_elems (elem y ys) zs)
                ∙ ap (λ (s : Text). s ++ tail_text (append_elems (elem y ys) zs))
                    (to_string-list (elem x xs))
                ∙ unfold tail_text in refl))
      ∙ sym (to_string-list (elem (list (elem x xs)) (append_elems (elem y ys) zs)))

  -- A list that starts with a list is written as the list with that list's last elements moved behind
  -- it: the end of an inner list leaves no trace, and both count as equal.
  pub list_nested :
      (x y : ParcelStringElem) (xs ys zs : Elems)
      → (to_string show_int show_byte (list (elem (list (append_elems (elem x xs) (elem y ys))) zs))
          ≡ to_string show_int show_byte
              (list (elem (list (elem x xs)) (append_elems (elem y ys) zs))))
        × (elem_eq show_int show_byte
              (list (elem (list (append_elems (elem x xs) (elem y ys))) zs))
              (list (elem (list (elem x xs)) (append_elems (elem y ys) zs)))
            ≡ true)
  unfolding elem_eq
  list_nested x y xs ys zs = let e = list_nested_text x y xs ys zs in (e, (same_iff _ _).1 e)
