-- ===== src/Setup/Rows.antt =====
-- The rows that the setup writes (the `Insert` types of dtu/src/db/device/models.rs), its events and
-- its errors. A row's number is a natural number.
use dtu.Prelude.{ℕ, Bool, Option, List, Text}
use dtu.UnknownBool.{UnknownBool, ℤ}
use dtu.ClassName.{ClassName}
use dtu.DevicePath.{DevicePath}
use dtu.Diff.Database.{DbError}

pub record InsertApk : Type 0 where
  pub app_name : Text
  pub name : Text
  pub is_debuggable : Bool
  pub is_priv : Bool
  pub device_path : DevicePath

-- `InsertReceiver` and `InsertActivity`.
pub record InsertIpc : Type 0 where
  pub class_name : ClassName
  pub permission : Option Text
  pub exported : Bool
  pub enabled : Bool
  pub pkg : Text
  pub apk_id : ℕ

pub record InsertService : Type 0 where
  pub service : InsertIpc
  pub returns_binder : UnknownBool

pub record InsertProvider : Type 0 where
  pub name : Text
  pub authorities : Text
  pub permission : Option Text
  pub grant_uri_permissions : Bool
  pub read_permission : Option Text
  pub write_permission : Option Text
  pub exported : Bool
  pub enabled : Bool
  pub apk_id : ℕ

pub record InsertPermission : Type 0 where
  pub name : Text
  pub protection_level : Text
  pub source_apk_id : ℕ

pub record InsertSystemServiceMethod : Type 0 where
  pub system_service_id : ℕ
  pub transaction_id : ℤ
  pub name : Text
  pub signature : Option Text
  pub return_type : Option Text
  pub smalisa_hash : Option Text

-- One row of any table, the table being the constructor.
pub data Row : Type 0 where
  apk_row : InsertApk → Row
  receiver_row activity_row : InsertIpc → Row
  service_row : InsertService → Row
  provider_row : InsertProvider → Row
  permission_row : InsertPermission → Row
  apk_permission_row : ℕ → Text → Row
  protected_broadcast_row : Text → Row
  system_service_method_row : InsertSystemServiceMethod → Row
  device_property_rows : List (Text × Text) → Row

pub record ServiceMeta : Type 0 where
  pub service_name : Text
  pub iface : Option ClassName

pub record ApkIdentifier : Type 0 where
  pub apk_id : ℕ
  pub dir_id : ℕ

pub data SetupEvent : Type 0 where
  discovered_services : List ServiceMeta → SetupEvent
  start_adding_system_service : Text → ℕ → Option ClassName → SetupEvent
  found_system_service_impl : ℕ → ClassName → Text → SetupEvent
  found_system_service_method : ℕ → Text → ℤ → Option Text → Option Text → SetupEvent
  done_adding_system_service : ℕ → SetupEvent
  started_apks_for_dir : Text → ℕ → ℕ → SetupEvent
  done_apks_for_dir : ℕ → Bool → SetupEvent
  start_adding_apk : DevicePath → ApkIdentifier → SetupEvent
  done_adding_apk : ApkIdentifier → Bool → SetupEvent
  adding_apk_permission : ApkIdentifier → Text → SetupEvent
  adding_apk_provider adding_apk_activity : ApkIdentifier → ClassName → SetupEvent
  adding_apk_service adding_apk_receiver : ApkIdentifier → ClassName → SetupEvent

-- `SetupError`, without the texts that its cases carry; `base` is an error of the other crates.
pub data SetupError : Type 0 where
  no_pull_and_decompile no_graph_database already_setup no_frameworks_dir : SetupError
  cancelled smalisa s3_asset_failure generic invalid_manifest base : SetupError
  db : DbError → SetupError
