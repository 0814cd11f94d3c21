-- ===== src/Diff/Rows.antt =====
-- The rows that the comparison reads and writes (dtu/src/db/device/models.rs) and its events. A row's
-- number, an `i32` of the database, is only compared, and is a natural number here.
use dtu.Prelude.{ℕ, Bool, Option, Text}
use dtu.UnknownBool.{UnknownBool}
use dtu.ClassName.{ClassName}
use dtu.DevicePath.{DevicePath}

pub record DiffSource : Type 0 where
  pub id : ℕ
  pub name : Text

pub record Permission : Type 0 where
  pub id : ℕ
  pub name : Text
  pub protection_level : Text
  pub source_apk_id : ℕ

pub record Apk : Type 0 where
  pub id : ℕ
  pub app_name : Text
  pub name : Text
  pub is_debuggable : Bool
  pub is_priv : Bool
  pub device_path : DevicePath

pub record Receiver : Type 0 where
  pub id : ℕ
  pub class_name : ClassName
  pub permission : Option Text
  pub exported : Bool
  pub enabled : Bool
  pub pkg : Text
  pub apk_id : ℕ

pub record Activity : Type 0 where
  pub id : ℕ
  pub class_name : ClassName
  pub permission : Option Text
  pub exported : Bool
  pub enabled : Bool
  pub pkg : Text
  pub apk_id : ℕ

pub record Service : Type 0 where
  pub id : ℕ
  pub class_name : ClassName
  pub permission : Option Text
  pub exported : Bool
  pub enabled : Bool
  pub pkg : Text
  pub apk_id : ℕ
  pub returns_binder : UnknownBool

pub record Provider : Type 0 where
  pub id : ℕ
  pub name : Text
  pub authorities : Text
  pub permission : Option Text
  pub grant_uri_permissions : Bool
  pub read_permission : Option Text
  pub write_permission : Option Text
  pub exported : Bool
  pub enabled : Bool
  pub apk_id : ℕ

pub record SystemService : Type 0 where
  pub id : ℕ
  pub name : Text
  pub iface : Option ClassName
  pub can_get_binder : UnknownBool

pub record SystemServiceMethod : Type 0 where
  pub id : ℕ
  pub system_service_id : ℕ
  pub transaction_id : ℕ
  pub name : Text
  pub signature : Option Text
  pub return_type : Option Text
  pub smalisa_hash : Option Text
