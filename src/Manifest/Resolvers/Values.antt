-- ===== src/Manifest/Resolvers/Values.antt =====
-- What the resolvers give for values of every form.
use dtu.Prelude.{
  ℕ, suc, ◌≡◌, refl, sym, ◌∙◌, inl, inr, Bool, true, false, Option, none, some, List, [], ◌∷◌,
  arith, Bool-cases, Option-cases, length, Text, same, same_refl,
}
use dtu.Manifest.References.{
  parsed, parse, Files, XmlResolver, is_reference, value_text, has_seen, resolved, resolver_for,
  resolve, target_of, for_value_reference, ValueReference,
}
use dtu.Manifest.References.Fuel.{
  file_texts, resolve_total, parse-is_reference, Resolves, for_value_reference-IsWithin,
}
use dtu.Manifest.References.Chains.{Chain, resolve-Chain}
use dtu.Manifest.Resolvers.{
  get_bool_resource, bool_or, returned, resolve_from, resolve_value, apktool_bool, apktool_string,
}

get_bool_resource-is_reference :
    (value : Text) → is_reference value ≡ true → get_bool_resource value ≡ none
unfolding get_bool_resource same
get_bool_resource-is_reference [] h = absurd (cc h)
get_bool_resource-is_reference (c ∷ value) h = ground (arith, h)

module _ (base_dir : Text) (files : Files) where
  module _ {A : Type 0} (transform : Text → Option A) where
    resolve_from_total :
        (vr : Option ValueReference)
        → Resolves base_dir files transform
            (resolve_from base_dir files transform (resolver_for base_dir files vr))
    resolve_from_total none = (none, [], refl)
    resolve_from_total (some vr) = elim (Option-cases (for_value_reference base_dir files vr)) [
      | inl nothing ↦ rw nothing (none, [], refl)
      | inr (x, found) ↦ rw found (resolve_total base_dir files transform vr x [] found)
    ]

    -- Every value is resolved: no chain of references, cyclic ones included, runs out of the fuel, one
    -- more than the number of texts in the files, and no value panics.
    pub resolve_value_total :
        (value : Text)
        → (v : Option A) × (seen : List Text) × (resolve_value base_dir files transform value
            ≡ resolved v seen)
    unfolding resolve_value
    resolve_value_total value = elim (Bool-cases (is_reference value)) [
      | inl reference ↦
          let (vr, read) = parse-is_reference base_dir files value reference in
          rw (reference, read) (resolve_from_total vr)
      | inr plain ↦ rw plain (none, [], refl)
    ]

    resolve_value_lem :
        (value : Text) (x : XmlResolver)
        → is_reference value ≡ true
        → target_of base_dir files (parse value) ≡ some x
        → resolve_value base_dir files transform value
          ≡ resolve base_dir files transform (suc (length (file_texts files))) x []
    unfolding resolve_value target_of
    resolve_value_lem value x reference target =
        let (vr, read) = parse-is_reference base_dir files value reference in
        let target' : resolver_for base_dir files vr ≡ some x = ground (arith, target, read) in
        rw (reference, read, target') refl

    resolve_value-Chain :
        (value : Text) (x : XmlResolver) (n : ℕ) (v : Option A)
        → is_reference value ≡ true
        → target_of base_dir files (parse value) ≡ some x
        → Chain base_dir files transform n x v
        → returned (resolve_value base_dir files transform value) ≡ v
    resolve_value-Chain value x n v reference target c =
        let (r, seen, e) = resolve_value_total value in
        let found = sym (resolve_value_lem value x reference target) ∙ e in
        rw e (
          resolve-Chain base_dir files transform (suc (length (file_texts files))) n x seen v r c
            found)

  -- A reference that leads to an entry gives what the walk from entry to entry ends at, as a string
  -- and as a Boolean; where that is not a Boolean, there is none.
  pub apktool-Chain :
      (value : Text) (x : XmlResolver) (n m : ℕ) (t : Text) (b : Option Bool)
      → is_reference value ≡ true
      → target_of base_dir files (parse value) ≡ some x
      → Chain base_dir files some n x (some t)
      → Chain base_dir files get_bool_resource m x b
      → (apktool_string base_dir files value ≡ t) × (apktool_bool base_dir files value ≡ b)
  unfolding apktool_string apktool_bool
  apktool-Chain value x n m t b reference target strings bools = (
    rw (resolve_value-Chain some value x n (some t) reference target strings) refl,
    rw
        (
          resolve_value-Chain get_bool_resource value x m b reference target bools,
          get_bool_resource-is_reference value reference,
        )
        (bool_or-none b),
  )
    where
      bool_or-none : (o : Option Bool) → bool_or o none ≡ o
      bool_or-none none = refl
      bool_or-none (some v) = refl

  -- A value that is no reference stands for itself.
  pub apktool_plain :
      (value : Text)
      → is_reference value ≡ false
      → (apktool_string base_dir files value ≡ value)
        × (apktool_bool base_dir files value ≡ get_bool_resource value)
  unfolding apktool_string apktool_bool resolve_value
  apktool_plain value plain = (rw plain refl, rw plain refl)

  has_seen-length :
      (ts : List Text) (t : Text) → has_seen ts t ≡ true → (n : ℕ) × (length ts ≡ suc n)
  unfolding has_seen
  has_seen-length [] t h = absurd (cc h)
  has_seen-length (u ∷ ts) t h = (length ts, refl)

  resolve_cycle :
      {A : Type 0} (transform : Text → Option A) (fuel : ℕ) (txt : Text) (vr : ValueReference)
      (x : XmlResolver)
      → for_value_reference base_dir files vr ≡ some x
      → value_text x ≡ some txt
      → is_reference txt ≡ true
      → parse txt ≡ parsed (some vr)
      → resolve base_dir files transform (suc (suc fuel)) x [] ≡ resolved (transform txt) (txt ∷ [])
  unfolding resolve has_seen
  resolve_cycle transform fuel txt vr x target found again back =
      rw (found, again, back, target, found, again, same_refl txt) refl

  module _ (value txt : Text) (vr : ValueReference) (x : XmlResolver)
      (reference : is_reference value ≡ true) (read : parse value ≡ parsed (some vr))
      (target : for_value_reference base_dir files vr ≡ some x) (found : value_text x ≡ some txt)
      (again : is_reference txt ≡ true) (back : parse txt ≡ parsed (some vr)) where
    resolve_value_cycle :
        {A : Type 0} (transform : Text → Option A)
        → resolve_value base_dir files transform value ≡ resolved (transform txt) (txt ∷ [])
    unfolding resolve_value
    resolve_value_cycle transform =
        let within = for_value_reference-IsWithin base_dir files vr x target txt found in
        let (n, size) = has_seen-length (file_texts files) txt within in
        rw (reference, read, target, size)
          (resolve_cycle transform n txt vr x target found again back)

    -- A reference to an entry whose text refers to that entry again gives that text, and no Boolean.
    pub apktool_cycle :
        (apktool_string base_dir files value ≡ txt) × (apktool_bool base_dir files value ≡ none)
    unfolding apktool_string apktool_bool
    apktool_cycle = (
      rw (resolve_value_cycle some) refl,
      rw
          (
            resolve_value_cycle get_bool_resource,
            get_bool_resource-is_reference txt again,
            get_bool_resource-is_reference value reference,
          )
          refl,
    )
