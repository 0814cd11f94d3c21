-- ===== src/Setup/Manifests.antt =====
-- `IPCCommon` and `AddManifestTask` of dtu/src/db/device/setup.rs: the rows of one manifest.
pub mod Binders
pub mod Written
pub mod Success
use dtu.Prelude.{
  ℕ, Bool, true, false, ◌&&◌, Option, none, some, List, [], ◌∷◌, if◌then◌else◌, is_empty, Text,
  codes, same, split_once,
}
use dtu.UnknownBool.{UnknownBool, ub_unknown, ub_true, ub_false}
use dtu.ClassName.{ClassName, from_split_manifest}
use dtu.Manifest.Resolvers.{ManifestResolver}
use dtu.Manifest.Items.{
  Ipc, ProviderItem, PermissionItem, Manifest, ipc_get_name, exported, enabled, permission,
  authorities, grant_uri_permissions, read_permission, write_permission, protection_level,
}
use dtu.Setup.Rows.{
  InsertIpc, InsertService, InsertProvider, InsertPermission, Row, receiver_row, activity_row,
  service_row, provider_row, permission_row, apk_permission_row, protected_broadcast_row,
  ApkIdentifier, SetupEvent, adding_apk_permission, adding_apk_provider, adding_apk_activity,
  adding_apk_service, adding_apk_receiver,
}
use dtu.Setup.Exec.{
  Outside, Setup, pure, on_event, for_each, cancel_check, insert, insert_or_ignore, ◌>>=◌, ◌>>◌,
}

pub record IpcCommon : Type 0 where
  pub name : Text
  pub enabled : Option Bool
  pub exported : Option Bool
  pub permission : Option Text

abbrev pub from_ipc : ManifestResolver → Ipc → IpcCommon
from_ipc resolver ipc = record {
  name = ipc_get_name resolver ipc;
  enabled = enabled resolver ipc;
  exported = exported resolver ipc;
  permission = permission resolver ipc;
}

abbrev pub unwrap_or : Option Bool → Bool → Bool
unwrap_or none default = default
unwrap_or (some b) default = b

abbrev pub is_enabled : IpcCommon → Bool
is_enabled c = unwrap_or c.enabled true

abbrev pub is_exported : IpcCommon → Bool
is_exported c = unwrap_or c.exported true

abbrev pub class_or_default : Text → Text → Option (Text × Text) → Text × Text
class_or_default name pkg none = (name, pkg)
class_or_default name default (some (pkg, name')) = (name', pkg)

unfoldable pub class_and_package : IpcCommon → Text → Text × Text
class_and_package c pkg = class_or_default c.name pkg (split_once b'/' c.name)

-- A line of a smali method: an instruction, and whether its arguments are a register and a number.
pub data MethodLine : Type 0 where
  instruction : Bool → MethodLine
  other_line : MethodLine

pub record SmaliMethod : Type 0 where
  pub method_name : Text
  pub method_args : Text
  pub lines : List MethodLine

-- `smali_of` finds, opens and parses the file of a class, which may fail.
pub record AddManifestTask : Type 0 where
  pub apk_id : ℕ
  pub pkg : Text
  pub identifier : ApkIdentifier
  pub resolver : ManifestResolver
  pub manifest : Manifest
  pub smali_of : ClassName → Option (List SmaliMethod)

abbrev pub find_method : Text → Text → List SmaliMethod → Option SmaliMethod
find_method name args [] = none
find_method name args (m ∷ ms) =
    if same m.method_name name && same m.method_args args then some m else find_method name args ms

abbrev pub instructions : List MethodLine → List Bool
instructions [] = []
instructions (instruction number ∷ lines) = number ∷ instructions lines
instructions (other_line ∷ lines) = instructions lines

-- Of two instructions the first decides.
abbrev pub returns_nonnull : List Bool → UnknownBool
returns_nonnull (true ∷ second ∷ []) = ub_false
returns_nonnull _ = ub_true

abbrev pub on_bind_of : Option SmaliMethod → UnknownBool
on_bind_of none = ub_unknown
on_bind_of (some m) = returns_nonnull (instructions m.lines)

abbrev pub on_bind_in : Option (List SmaliMethod) → UnknownBool
on_bind_in none = ub_unknown
on_bind_in (some ms) =
    on_bind_of (find_method (codes "onBind") (codes "Landroid/content/Intent;") ms)

module _ (o : Outside) (t : AddManifestTask) where
  unfoldable pub service_on_bind_returns_nonnull : ClassName → UnknownBool
  service_on_bind_returns_nonnull class = on_bind_in (t.smali_of class)

  abbrev pub common_of : Ipc → IpcCommon
  common_of ipc = from_ipc t.resolver ipc

  abbrev pub class_of : Ipc → ClassName
  class_of ipc =
      let (raw, pkg) = class_and_package (common_of ipc) t.pkg in from_split_manifest pkg raw

  abbrev pub ipc_row : Ipc → InsertIpc
  ipc_row ipc = record {
    class_name = class_of ipc;
    permission = (common_of ipc).permission;
    exported = is_exported (common_of ipc);
    enabled = is_enabled (common_of ipc);
    pkg = (class_and_package (common_of ipc) t.pkg).1;
    apk_id = t.apk_id;
  }

  abbrev pub provider_entry_row : ProviderItem → InsertProvider
  provider_entry_row prov = record {
    name = (common_of prov.ipc).name;
    authorities = authorities t.resolver prov;
    permission = (common_of prov.ipc).permission;
    grant_uri_permissions = unwrap_or (grant_uri_permissions t.resolver prov) false;
    read_permission = read_permission t.resolver prov;
    write_permission = write_permission t.resolver prov;
    exported = is_exported (common_of prov.ipc);
    enabled = is_enabled (common_of prov.ipc);
    apk_id = t.apk_id;
  }

  abbrev pub permission_entry_row : PermissionItem → InsertPermission
  permission_entry_row perm = record {
    name = t.resolver.resolve_string perm.permission_name;
    protection_level = protection_level t.resolver perm;
    source_apk_id = t.apk_id;
  }

  unfoldable pub add_manifest_receiver : Ipc → Setup (Unit {0})
  add_manifest_receiver rcv = do
    on_event (adding_apk_receiver t.identifier (class_of rcv))
    insert o (receiver_row (ipc_row rcv))

  unfoldable pub add_manifest_receivers : List Ipc → Setup (Unit {0})
  unfolding add_manifest_receiver
  add_manifest_receivers rcvers = for_each add_manifest_receiver rcvers

  unfoldable pub add_manifest_provider : ProviderItem → Setup (Unit {0})
  add_manifest_provider prov = do
    on_event (adding_apk_provider t.identifier (class_of prov.ipc))
    insert o (provider_row (provider_entry_row prov))

  unfoldable pub add_manifest_providers : List ProviderItem → Setup (Unit {0})
  unfolding add_manifest_provider
  add_manifest_providers providers = for_each add_manifest_provider providers

  unfoldable pub add_manifest_activity : Ipc → Setup (Unit {0})
  add_manifest_activity act = do
    on_event (adding_apk_activity t.identifier (class_of act))
    insert o (activity_row (ipc_row act))

  unfoldable pub add_manifest_activities : List Ipc → List Ipc → Setup (Unit {0})
  unfolding add_manifest_activity
  add_manifest_activities activities aliases = do
    for_each add_manifest_activity activities
    for_each add_manifest_activity aliases

  unfoldable pub add_manifest_service : Ipc → Setup (Unit {0})
  unfolding service_on_bind_returns_nonnull
  add_manifest_service svc = do
    on_event (adding_apk_service t.identifier (class_of svc))
    insert o (
        service_row (record {
          service = ipc_row svc;
          returns_binder = service_on_bind_returns_nonnull (class_of svc);
        }))

  unfoldable pub add_manifest_services : List Ipc → Setup (Unit {0})
  unfolding add_manifest_service
  add_manifest_services services = for_each add_manifest_service services

  unfoldable pub add_manifest_permission : PermissionItem → Setup (Unit {0})
  add_manifest_permission perm = do
    on_event (adding_apk_permission t.identifier (t.resolver.resolve_string perm.permission_name))
    insert_or_ignore o (permission_row (permission_entry_row perm))

  -- The body of the second loop of `add_manifest_permissions`.
  unfoldable pub add_uses_permission : Text → Setup (Unit {0})
  add_uses_permission up =
      let name = t.resolver.resolve_string up in
      if is_empty name then pure tt else insert_or_ignore o (apk_permission_row t.apk_id name)

  unfoldable pub add_manifest_permissions : List PermissionItem → List Text → Setup (Unit {0})
  unfolding add_manifest_permission add_uses_permission
  add_manifest_permissions permissions uses_permissions = do
    for_each add_manifest_permission permissions
    for_each add_uses_permission uses_permissions

  unfoldable pub add_protected_broadcast : Text → Setup (Unit {0})
  add_protected_broadcast pb =
      insert_or_ignore o (protected_broadcast_row (t.resolver.resolve_string pb))

  unfoldable pub add_protected_broadcasts : List Text → Setup (Unit {0})
  unfolding add_protected_broadcast
  add_protected_broadcasts pbs = for_each add_protected_broadcast pbs

  -- `AddManifestTask::run`.
  unfoldable pub run_manifest : Setup (Unit {0})
  run_manifest = do
    add_manifest_receivers t.manifest.application.receivers
    cancel_check o
    add_manifest_services t.manifest.application.services
    cancel_check o
    add_manifest_providers t.manifest.application.providers
    cancel_check o
    add_manifest_activities t.manifest.application.activities
        t.manifest.application.activity_aliases
    cancel_check o
    add_manifest_permissions t.manifest.permissions t.manifest.uses_permissions
    add_protected_broadcasts t.manifest.protected_broadcasts
