-- ===== src/Setup/Manifests/Binders.antt =====
-- Which components count as exported and as enabled.
use dtu.Prelude.{
  ◌≡◌, refl, ◌↔◌, ◌⊎◌, inl, inr, Bool, true, false, Option, none, some, List, [], ◌∷◌, arith, ltb,
  Option-cases, length, Text,
}
use dtu.Manifest.Resolvers.{ManifestResolver}
use dtu.Manifest.Items.{Ipc, IntentFilter, bool_or_default}
use dtu.Setup.Manifests.{from_ipc, is_enabled, is_exported, unwrap_or}

module _ (resolver : ManifestResolver) where
  -- The attribute is there, and says `false`.
  abbrev pub SaysFalse : Option Text → Type 0
  SaysFalse attribute = (v : Text) × (attribute ≡ some v) × (resolver.resolve_bool v ≡ some false)

  says_false : (v : Text) → unwrap_or (resolver.resolve_bool v) true ≡ false → SaysFalse (some v)
  says_false v h = elim (Option-cases (resolver.resolve_bool v)) [
    | inl nothing ↦ absurd (ground (arith, nothing, h))
    | inr (b, read) ↦ (v, refl, ground (arith, read, h))
  ]

  said_false :
      (default : Bool) (attribute : Option Text)
      → SaysFalse attribute
      → unwrap_or (bool_or_default resolver default attribute) true ≡ false
  said_false default none (v, e, read) = absurd (cc e)
  said_false default (some u) (v, e, read) =
      let u-eq : u ≡ v = ground (arith, e) in rw (u-eq, read) refl

  exported_of :
      (filters : List IntentFilter) (attribute : Option Text)
      → unwrap_or (bool_or_default resolver (ltb 0 (length filters)) attribute) true ≡ false
      → ((attribute ≡ none) × (filters ≡ [])) ⊎ SaysFalse attribute
  exported_of [] none h = inl (refl, refl)
  exported_of (f ∷ fs) none h = absurd (ground (arith, h))
  exported_of filters (some v) h = inr (says_false v h)

  not_exported :
      (filters : List IntentFilter) (attribute : Option Text)
      → ((attribute ≡ none) × (filters ≡ [])) ⊎ SaysFalse attribute
      → unwrap_or (bool_or_default resolver (ltb 0 (length filters)) attribute) true ≡ false
  not_exported filters attribute (inl (a, f)) = rw (a, f) refl
  not_exported filters attribute (inr says) = said_false (ltb 0 (length filters)) attribute says

  enabled_of :
      (attribute : Option Text)
      → unwrap_or (bool_or_default resolver true attribute) true ≡ false
      → SaysFalse attribute
  enabled_of none h = absurd (cc h)
  enabled_of (some v) h = says_false v h

  -- A component is not exported exactly where its attribute resolves to `false`, or is missing while it
  -- has no intent filters; it is disabled exactly where its attribute resolves to `false`.
  pub is_exported-is_enabled :
      (ipc : Ipc)
      → ((is_exported (from_ipc resolver ipc) ≡ false)
          ↔ (((ipc.ipc_exported ≡ none) × (ipc.intent_filters ≡ [])) ⊎ SaysFalse ipc.ipc_exported))
        × ((is_enabled (from_ipc resolver ipc) ≡ false) ↔ SaysFalse ipc.ipc_enabled)
  is_exported-is_enabled ipc = (
    (
      exported_of ipc.intent_filters ipc.ipc_exported,
      not_exported ipc.intent_filters ipc.ipc_exported,
    ),
    (enabled_of ipc.ipc_enabled, said_false true ipc.ipc_enabled),
  )
