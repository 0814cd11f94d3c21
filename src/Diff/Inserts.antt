-- ===== src/Diff/Inserts.antt =====
-- What the comparison inserts (the structs that dtu_proc_macro derives from the rows of
-- dtu/src/db/device/models.rs, without their `id`) and the events that it fires.
use dtu.Prelude.{ℕ, Bool, Option, Text}
use dtu.UnknownBool.{UnknownBool}
use dtu.ClassName.{ClassName}

pub record InsertApkDiff : Type 0 where
  pub apk : ℕ
  pub diff_source : ℕ
  pub exists_in_diff : Bool

pub record InsertSystemServiceDiff : Type 0 where
  pub system_service : ℕ
  pub diff_source : ℕ
  pub exists_in_diff : Bool

pub record InsertSystemServiceMethodDiff : Type 0 where
  pub method : ℕ
  pub diff_source : ℕ
  pub exists_in_diff : Bool
  pub hash_matches_diff : UnknownBool

-- `InsertReceiverDiff`, `InsertServiceDiff` and `InsertActivityDiff` have these fields, the component's
-- number under its kind's name; `new` leaves `diff_permission` empty.
pub record InsertIpcDiff : Type 0 where
  pub item : ℕ
  pub diff_source : ℕ
  pub exists_in_diff : Bool
  pub exported_matches_diff : Bool
  pub permission_matches_diff : Bool
  pub diff_permission : Option Text

pub record InsertProviderDiff : Type 0 where
  pub provider : ℕ
  pub diff_source : ℕ
  pub exists_in_diff : Bool
  pub exported_matches_diff : Bool
  pub permission_matches_diff : Bool
  pub diff_permission : Option Text
  pub read_permission_matches_diff : Bool
  pub diff_read_permission : Option Text
  pub write_permission_matches_diff : Bool
  pub diff_write_permission : Option Text

pub record InsertPermissionDiff : Type 0 where
  pub permission : ℕ
  pub diff_source : ℕ
  pub exists_in_diff : Bool
  pub protection_level_matches_diff : Bool
  pub diff_protection_level : Option Text

pub data DiffEvent : Type 0 where
  system_services_started : ℕ → DiffEvent
  system_service : ℕ → Text → Bool → DiffEvent
  system_services_ended : DiffEvent
  apks_started : ℕ → DiffEvent
  apk : ℕ → Text → Bool → DiffEvent
  apks_ended : DiffEvent
  receivers_started : ℕ → DiffEvent
  receiver : ℕ → ClassName → Bool → DiffEvent
  receivers_ended : DiffEvent
  services_started : ℕ → DiffEvent
  service : ℕ → ClassName → Bool → DiffEvent
  services_ended : DiffEvent
  activities_started : ℕ → DiffEvent
  activity : ℕ → ClassName → Bool → DiffEvent
  activities_ended : DiffEvent
  providers_started : ℕ → DiffEvent
  provider : ℕ → Text → Bool → DiffEvent
  providers_ended : DiffEvent
  permissions_started : ℕ → DiffEvent
  permission : ℕ → Text → Bool → Bool → DiffEvent
  permissions_ended : DiffEvent
