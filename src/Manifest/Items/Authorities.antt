-- ===== src/Manifest/Items/Authorities.antt =====
-- The authorities of a provider.
use dtu.Prelude.{
  ℕ, ◌+◌, ◌-◌, ◌<◌, ◌≡◌, refl, sym, ap, ap₂, ◌∙◌, inl, inr, Bool, true, false, not, List, [], ◌∷◌,
  ◌++◌, map, append-nil, append_assoc, arith, leb, ◌==◌, ==_iff, Bool-cases, length, all, Text,
  contains,
}
use dtu.Manifest.References.{is_reference}
use dtu.Manifest.Resolvers.{ManifestResolver, apktool_resolver}
use dtu.Manifest.Resolvers.Values.{apktool_plain}
use dtu.Manifest.References.{Files}
use dtu.Manifest.Items.{
  ProviderItem, push_front, split_char, count_char, push_authorities, authorities,
}

-- What the items need of a resolver: a value that is no reference stands for itself.
pub record IsResolver (resolver : ManifestResolver) : Type 0 where
  pub string_plain :
      (value : Text) → is_reference value ≡ false → resolver.resolve_string value ≡ value

pub apktool-IsResolver :
    (base_dir : Text) (files : Files) → IsResolver (apktool_resolver base_dir files)
apktool-IsResolver base_dir files = record {
  string_plain = λ value plain. (apktool_plain base_dir files value plain).0;
}

-- The parts with a `;` between them.
abbrev pub joined_parts : List Text → Text
joined_parts [] = []
joined_parts (part ∷ []) = part
joined_parts (part ∷ next ∷ parts) = part ++ b';' ∷ joined_parts (next ∷ parts)

joined_parts-push_front :
    (c : ℕ) (parts : List Text) → joined_parts (push_front c parts) ≡ c ∷ joined_parts parts
joined_parts-push_front c [] = refl
joined_parts-push_front c (part ∷ []) = refl
joined_parts-push_front c (part ∷ next ∷ parts) = refl

split_char-cons : (sep : ℕ) (s : Text) → (p : Text) × (ps : List Text) × (split_char sep s ≡ p ∷ ps)
unfolding split_char
split_char-cons sep [] = ([], [], refl)
split_char-cons sep (c ∷ s) =
    let (p, ps, e) = split_char-cons sep s in
    elim (Bool-cases (c == sep)) [
      | inl h ↦ rw h ([], split_char sep s, refl)
      | inr h ↦ rw (h, e) (c ∷ p, ps, refl)
    ]

joined_parts-split_char : (s : Text) → joined_parts (split_char b';' s) ≡ s
unfolding split_char
joined_parts-split_char [] = refl
joined_parts-split_char (c ∷ s) =
    let (p, ps, e) = split_char-cons b';' s in
    let ih = joined_parts-split_char s in
    elim (Bool-cases (c == b';')) [
      | inl h ↦
          rw (h, e)
            (ap₂ (λ (x : ℕ) (xs : Text). x ∷ xs) (sym ((==_iff c b';').0 h))
              (ap joined_parts (sym e) ∙ ih))
      | inr h ↦ rw h (joined_parts-push_front c (split_char b';' s) ∙ ap (λ (xs : Text). c ∷ xs) ih)
    ]

length-split_char : (sep : ℕ) (s : Text) → length (split_char sep s) ≡ count_char sep s + 1
unfolding split_char count_char
length-split_char sep [] = omega arith
length-split_char sep (c ∷ s) =
    let (p, ps, e) = split_char-cons sep s in
    elim (Bool-cases (c == sep)) [
      | inl h ↦ rw h (omega (arith, length-split_char sep s))
      | inr h ↦ rw (h, e) (omega (arith, ap length (sym e) ∙ length-split_char sep s))
    ]

count_char_pos : (c : ℕ) (s : Text) → contains s c ≡ true → 0 < count_char c s
unfolding count_char
count_char_pos c [] h = absurd (cc h)
count_char_pos c (x ∷ s) h = ground (arith, count_char_pos c s)

all_plain : ℕ → List Text → Bool
all_plain c parts = all (λ part. not (contains part c)) parts

all_plain-push_front :
    (c d : ℕ) (parts : List Text)
    → all_plain c parts ≡ true
    → (d == c) ≡ false
    → all_plain c (push_front d parts) ≡ true
unfolding all_plain
all_plain-push_front c d [] h n = ground (arith, n)
all_plain-push_front c d (p ∷ ps) h n = ground (arith, h, n)

split_char_plain :
    (c sep : ℕ) (s : Text) → contains s c ≡ false → all_plain c (split_char sep s) ≡ true
unfolding split_char all_plain
split_char_plain c sep [] h = refl
split_char_plain c sep (x ∷ s) h =
    let ih = split_char_plain c sep s (ground (arith, h)) in
    elim (Bool-cases (x == sep)) [
      | inl e ↦ rw e ih
      | inr e ↦ rw e (all_plain-push_front c x (split_char sep s) ih (ground (arith, h)))
    ]

split_char-none : (sep : ℕ) (s : Text) → contains s sep ≡ false → split_char sep s ≡ s ∷ []
unfolding split_char
split_char-none sep [] h = refl
split_char-none sep (c ∷ s) h =
    let head : (c == sep) ≡ false = ground (arith, h) in
    rw (head, split_char-none sep s (ground (arith, h))) refl

is_reference-contains : (part : Text) → contains part b'@' ≡ false → is_reference part ≡ false
is_reference-contains [] h = refl
is_reference-contains (c ∷ part) h = ground (arith, h)

module _ (resolver : ManifestResolver) where
  push_authorities_lem :
      (total i : ℕ) (parts : List Text) (s : Text)
      → i + length parts ≡ total + 2
      → push_authorities resolver total i parts s
        ≡ s ++ joined_parts (map resolver.resolve_string parts)
  unfolding push_authorities
  push_authorities_lem total i [] s h = sym (append-nil s)
  push_authorities_lem total i (p ∷ []) s h =
      let last : leb i total ≡ false = ground (arith, h) in rw (last, append-nil) refl
  push_authorities_lem total i (p ∷ q ∷ ps) s h =
      let inner : leb i total ≡ true = ground (arith, h) in
      rw
        (
          inner,
          push_authorities_lem total (i + 1) (q ∷ ps)
              (s ++ (resolver.resolve_string p ++ b';' ∷ [])) (omega (arith, h)),
        )
        (simp (append_assoc) (refl))

  map_plain :
      (laws : IsResolver resolver) (parts : List Text)
      → all_plain b'@' parts ≡ true
      → map resolver.resolve_string parts ≡ parts
  unfolding all_plain
  map_plain laws [] h = refl
  map_plain laws (p ∷ ps) h =
      ap₂ (λ (x : Text) (xs : List Text). x ∷ xs)
        (laws.string_plain p (is_reference-contains p (ground (arith, h))))
        (map_plain laws ps (ground (arith, h)))

  -- With a resolver that leaves what is no reference alone, the authorities are those of the
  -- manifest, each of them resolved, with a `;` between them.
  pub authorities_lem :
      (laws : IsResolver resolver) (p : ProviderItem)
      → authorities resolver p
        ≡ joined_parts (map resolver.resolve_string (split_char b';' p.provider_authorities))
  unfolding authorities
  authorities_lem laws p =
      let s : Text = p.provider_authorities in
      elim (Bool-cases (contains s b'@')) [
        | inr plain ↦
            rw (plain, map_plain laws (split_char b';' s) (split_char_plain b'@' b';' s plain))
              (sym (joined_parts-split_char s))
        | inl refers ↦ rw refers (elim (Bool-cases (contains s b';')) [
          | inr single ↦ rw (single, split_char-none b';' s single) refl
          | inl several ↦ rw several (
              push_authorities_lem (count_char b';' s - 1) 0 (split_char b';' s) []
                (omega (arith, length-split_char b';' s, count_char_pos b';' s several)))
        ])
      ]
