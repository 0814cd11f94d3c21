-- ===== src/Manifest/Items.antt =====
-- The items of a manifest and their getters, which resolve references: `Manifest`, `Application`,
-- `IPC` and the items below them in dtu/src/manifest.rs.
pub mod Authorities
use dtu.Prelude.{
  ℕ, ◌+◌, ◌-◌, Bool, true, false, not, Option, none, some, List, [], ◌∷◌, ◌++◌, ltb, leb, ◌==◌,
  if◌then◌else◌, length, Text, codes, contains,
}
use dtu.Manifest.Resolvers.{ManifestResolver}

pub record Data : Type 0 where
  pub scheme : Option Text
  pub host : Option Text
  pub port : Option Text
  pub path : Option Text
  pub path_pattern : Option Text
  pub path_prefix : Option Text
  pub path_suffix : Option Text
  pub path_advanced_pattern : Option Text
  pub mime_type : Option Text

-- An `Action` or a `Category` is its name.
pub record IntentFilter : Type 0 where
  pub actions : List Text
  pub categories : List Text
  pub intents : List Data

-- What `def_ipc!` gives an activity, a receiver, a service and a provider.
pub record Ipc : Type 0 where
  pub ipc_name : Text
  pub ipc_enabled : Option Text
  pub ipc_exported : Option Text
  pub ipc_permission : Option Text
  pub intent_filters : List IntentFilter

pub record ProviderItem : Type 0 where
  pub ipc : Ipc
  pub provider_authorities : Text
  pub provider_read_permission : Option Text
  pub provider_write_permission : Option Text
  pub provider_grant_uri_permissions : Option Text

pub record PermissionItem : Type 0 where
  pub permission_name : Text
  pub permission_protection_level : Option Text

pub record Application : Type 0 where
  pub debuggable : Option Text
  pub allow_backup : Option Text
  pub activities : List Ipc
  pub activity_aliases : List Ipc
  pub providers : List ProviderItem
  pub receivers : List Ipc
  pub services : List Ipc

-- A `UsesPermission` or a `ProtectedBroadcast` is its name.
pub record Manifest : Type 0 where
  pub manifest_package : Text
  pub uses_permissions : List Text
  pub permissions : List PermissionItem
  pub protected_broadcasts : List Text
  pub application : Application

-- `str::split` for one character, and how often a character stands in a text.
abbrev pub push_front : ℕ → List Text → List Text
push_front c [] = (c ∷ []) ∷ []
push_front c (part ∷ parts) = (c ∷ part) ∷ parts

unfoldable pub split_char : ℕ → Text → List Text
split_char sep [] = [] ∷ []
split_char sep (c ∷ cs) =
    let rest = split_char sep cs in if c == sep then [] ∷ rest else push_front c rest

unfoldable pub count_char : ℕ → Text → ℕ
count_char sep [] = 0
count_char sep (c ∷ cs) = (if c == sep then 1 else 0) + count_char sep cs

module _ (resolver : ManifestResolver) where
  -- `maybe_cow_getter!`.
  abbrev pub resolve_maybe : Option Text → Option Text
  resolve_maybe none = none
  resolve_maybe (some v) = some (resolver.resolve_string v)

  abbrev pub bool_or_default : Bool → Option Text → Option Bool
  bool_or_default default none = some default
  bool_or_default default (some v) = resolver.resolve_bool v

  abbrev pub ipc_get_name : Ipc → Text
  ipc_get_name i = resolver.resolve_string i.ipc_name

  abbrev pub exported : Ipc → Option Bool
  exported i = bool_or_default (ltb 0 (length i.intent_filters)) i.ipc_exported

  abbrev pub enabled : Ipc → Option Bool
  enabled i = bool_or_default true i.ipc_enabled

  abbrev pub permission : Ipc → Option Text
  permission i = resolve_maybe i.ipc_permission

  -- The loop over the authorities: a `;` behind all but the last.
  unfoldable pub push_authorities : ℕ → ℕ → List Text → Text → Text
  push_authorities total i [] s = s
  push_authorities total i (auth ∷ split) s =
      push_authorities total (i + 1) split
        (s ++ (resolver.resolve_string auth ++ (if leb i total then b';' ∷ [] else [])))

  unfoldable pub authorities : ProviderItem → Text
  authorities p =
      if not (contains p.provider_authorities b'@')
      then p.provider_authorities
      else if not (contains p.provider_authorities b';')
      then resolver.resolve_string p.provider_authorities
      else push_authorities (count_char b';' p.provider_authorities - 1) 0
          (split_char b';' p.provider_authorities) []

  abbrev pub grant_uri_permissions : ProviderItem → Option Bool
  grant_uri_permissions p = bool_or_default false p.provider_grant_uri_permissions

  abbrev pub or_permission : Ipc → Option Text → Option Text
  or_permission i none = permission i
  or_permission i (some v) = some (resolver.resolve_string v)

  abbrev pub read_permission : ProviderItem → Option Text
  read_permission p = or_permission p.ipc p.provider_read_permission

  abbrev pub write_permission : ProviderItem → Option Text
  write_permission p = or_permission p.ipc p.provider_write_permission

  abbrev pub level_or_normal : Option Text → Text
  level_or_normal none = codes "normal"
  level_or_normal (some v) = resolver.resolve_string v

  abbrev pub protection_level : PermissionItem → Text
  protection_level p = level_or_normal p.permission_protection_level
