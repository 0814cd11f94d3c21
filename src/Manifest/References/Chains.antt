-- ===== src/Manifest/References/Chains.antt =====
-- `XmlResolver::resolve` against an independent description: the walk from reference to reference,
-- with no set of references seen.
use dtu.Prelude.{
  ℕ, zero, suc, ◌≤◌, ◌≡◌, refl, sym, ap, ◌∙◌, inl, inr, true, false, not, ◌||◌, Option, none, some,
  List, [], ◌∷◌, arith, if◌then◌else◌, Bool-cases, Option-cases, Text, same, same_iff,
}
use dtu.Manifest.References.{
  parse, Files, XmlResolver, has_seen, is_reference, Resolution, resolved, value_text, resolver_for,
  target_of, resolve_text, resolve,
}
use mathlib.Core.Path.{subst}
use dtu.Manifest.References.Fuel.{parse-is_reference}

module _ (base_dir : Text) (files : Files) where
  abbrev pub pointed_at : Option Text → Option XmlResolver
  pointed_at none = none
  pointed_at (some txt) = if is_reference txt then target_of base_dir files (parse txt) else none

  -- The entry that a value refers to, if it is a reference that leads to a file.
  unfoldable pub next : XmlResolver → Option XmlResolver
  next x = pointed_at (value_text x)

  module _ {A : Type 0} (transform : Text → Option A) where
    abbrev pub transformed : Option Text → Option A
    transformed none = none
    transformed (some txt) = transform txt

    -- After `n` references the walk ends at a value that refers to nothing, which gives `v`.
    abbrev pub Chain : ℕ → XmlResolver → Option A → Type 0
    Chain zero x v = (next x ≡ none) × (transformed (value_text x) ≡ v)
    Chain (suc n) x v = (y : XmlResolver) × (next x ≡ some y) × Chain n y v

    Chain-length : (n m : ℕ) (x : XmlResolver) (v w : Option A) → Chain n x v → Chain m x w → n ≡ m
    Chain-length zero zero x v w a b = refl
    Chain-length zero (suc m) x v w a b = absurd (cc (a.0, b.1))
    Chain-length (suc n) zero x v w a b = absurd (cc (a.1, b.0))
    Chain-length (suc n) (suc m) x v w (y, e, a) (z, f, b) =
        let z-eq : z ≡ y = cc (e, f) in
        ap suc (Chain-length n m y v w a (subst (λ u. Chain m u w) z-eq b))

    -- What the references seen lead to is at least `n` references away from the end of its walk.
    abbrev Above : ℕ → List Text → Type 0
    Above n seen =
        (t : Text) (y : XmlResolver)
        → has_seen seen t ≡ true
        → target_of base_dir files (parse t) ≡ some y
        → (m : ℕ) × (w : Option A) × (n ≤ m) × Chain m y w

    Above-cons :
        (n : ℕ) (seen : List Text) (txt : Text) (y : XmlResolver) (v : Option A)
        → target_of base_dir files (parse txt) ≡ some y
        → Chain n y v
        → Above (suc n) seen
        → Above n (txt ∷ seen)
    unfolding has_seen
    Above-cons n seen txt y v e c above t z h f = elim (Bool-cases (same txt t)) [
      | inl s ↦
          let t-eq : txt ≡ t = (same_iff txt t).0 s in
          let z-eq : y ≡ z = cc (e, f, t-eq) in (n, v, omega arith, subst (λ u. Chain n u v) z-eq c)
      | inr s ↦
          let (m, w, le, d) = above t z (ground (arith, s, h)) f in (m, w, omega (arith, le), d)
    ]

    next_lem :
        (x y : XmlResolver)
        → next x ≡ some y
        → (txt : Text) × (value_text x ≡ some txt)
          × (is_reference txt ≡ true)
          × (target_of base_dir files (parse txt) ≡ some y)
    unfolding next
    next_lem x y e = elim (Option-cases (value_text x)) [
      | inl nothing ↦ absurd (ground (arith, nothing, e))
      | inr (txt, found) ↦ (txt, found, ground (arith, found, e), ground (arith, found, e))
    ]

    module _ (go : XmlResolver → List Text → Resolution A) where
      resolve_text_end :
          (x : XmlResolver) (seen : List Text)
          → next x ≡ none
          → (seen' : List Text) × (resolve_text base_dir files transform go seen (value_text x)
              ≡ resolved (transformed (value_text x)) seen')
      unfolding next target_of
      resolve_text_end x seen e = elim (Option-cases (value_text x)) [
        | inl nothing ↦ rw nothing (seen, refl)
        | inr (txt, found) ↦ elim (Bool-cases (not (is_reference txt) || has_seen seen txt)) [
          | inl plain ↦ rw (found, plain) (seen, refl)
          | inr reference ↦
              let (vr, read) = parse-is_reference base_dir files txt (ground (arith, reference)) in
              let nowhere : resolver_for base_dir files vr ≡ none =
                ground (arith, reference, found, read, e) in
              rw (found, reference, read, nowhere) (txt ∷ seen, refl)
        ]
      ]

      resolve_text_next :
          (x y : XmlResolver) (seen : List Text) (txt : Text)
          → value_text x ≡ some txt
          → is_reference txt ≡ true
          → target_of base_dir files (parse txt) ≡ some y
          → has_seen seen txt ≡ false
          → resolve_text base_dir files transform go seen (value_text x) ≡ go y (txt ∷ seen)
      unfolding target_of
      resolve_text_next x y seen txt found reference target new =
          let (vr, read) = parse-is_reference base_dir files txt reference in
          let target' : resolver_for base_dir files vr ≡ some y = ground (arith, target, read) in
          rw (found, reference, new, read, target') refl

    resolve_walk :
        (fuel n : ℕ) (x : XmlResolver) (seen seen' : List Text) (v r : Option A)
        → Chain n x v
        → Above n seen
        → resolve base_dir files transform fuel x seen ≡ resolved r seen'
        → r ≡ v
    unfolding resolve
    resolve_walk zero n x seen seen' v r c above e = absurd (cc e)
    resolve_walk (suc fuel) zero x seen seen' v r c above e =
        let (s, done) =
          resolve_text_end (λ y s. resolve base_dir files transform fuel y s) x seen c.0 in
        cc (done, c.1, e)
    resolve_walk (suc fuel) (suc n) x seen seen' v r (y, step, c) above e =
        let (txt, found, reference, target) = next_lem x y step in
        elim (Bool-cases (has_seen seen txt)) [
          | inl old ↦
              let (m, w, le, d) = above txt y old target in
              absurd (omega (arith, le, Chain-length n m y v w c d))
          | inr new ↦
              resolve_walk fuel n y (txt ∷ seen) seen' v r c
                (Above-cons n seen txt y v target c above)
                (sym (
                    resolve_text_next (λ y s. resolve base_dir files transform fuel y s) x y seen
                      txt found reference target new)
                  ∙ e)
        ]

    -- Where the walk through the references ends, that is the result: no reference comes up twice.
    pub resolve-Chain :
        (fuel n : ℕ) (x : XmlResolver) (seen : List Text) (v r : Option A)
        → Chain n x v
        → resolve base_dir files transform fuel x [] ≡ resolved r seen
        → r ≡ v
    unfolding has_seen
    resolve-Chain fuel n x seen v r c e =
        resolve_walk fuel n x [] seen v r c (λ t y h. absurd (cc h)) e
