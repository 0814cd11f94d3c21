-- ===== src/Diff/Components.antt =====
-- The comparison of APKs, IPC components, providers and permissions: the methods of `DiffTask`.
use dtu.Prelude.{
  ℕ, ◌+◌, Bool, true, false, not, Option, none, some, List, [], ◌∷◌, if◌then◌else◌, length, all,
  retain, Text, same,
}
use dtu.ClassName
use dtu.ClassName.{ClassName}
use dtu.Diff.Rows.{Apk, Receiver, Activity, Service, DiffSource}
use dtu.Diff.Inserts
use dtu.Diff.Inserts.{
  InsertApkDiff, InsertIpcDiff, InsertProviderDiff, InsertPermissionDiff, DiffEvent,
}
use dtu.Diff.Database.{contains_id, DbResult, Reads, DeviceDatabase}
use dtu.Diff.Exec.{
  Exec, cancelled, ok, err, pure, lift, trigger, query, insert, for_each, ◌>>=◌, ◌>>◌,
}
use dtu.Diff.SystemServices.{find_last}

-- `cancel` is what the cancel flag reads at each of the task's checks, whoever sets it.
pub record DiffTask (S : Type 0) : Type 0 where
  pub source : DiffSource
  pub database : DeviceDatabase S
  pub diff_db : Reads
  pub cancel : ℕ → Bool
  pub do_system_services : Bool
  pub do_apks : Bool

-- `PermissionMode`, and the parts of the traits `ApkIPC`, `Exportable`, `PermissionProtected` and
-- `Idable` that the comparison uses.
pub data PermissionMode : Type 0 where
  mode_generic mode_read mode_write mode_any : PermissionMode

pub record ApkIpc (T : Type 0) : Type 0 where
  pub get_id : T → ℕ
  pub get_class_name : T → ClassName
  pub is_exported : T → Bool
  pub get_generic_permission : T → Option Text

instance abbrev pub receiver_ipc : ApkIpc Receiver
receiver_ipc = record {
  get_id = λ r. r.id;
  get_class_name = λ r. r.class_name;
  is_exported = λ r. r.exported;
  get_generic_permission = λ r. r.permission;
}

instance abbrev pub activity_ipc : ApkIpc Activity
activity_ipc = record {
  get_id = λ r. r.id;
  get_class_name = λ r. r.class_name;
  is_exported = λ r. r.exported;
  get_generic_permission = λ r. r.permission;
}

instance abbrev pub service_ipc : ApkIpc Service
service_ipc = record {
  get_id = λ r. r.id;
  get_class_name = λ r. r.class_name;
  is_exported = λ r. r.exported;
  get_generic_permission = λ r. r.permission;
}

abbrev pub is_some {ℓ} : {A : Type ℓ} → Option A → Bool
is_some none = false
is_some (some a) = true

-- `==` on optional texts.
abbrev pub same_option : Option Text → Option Text → Bool
same_option none none = true
same_option (some a) (some b) = same a b
same_option _ _ = false

-- The trait's own `get_permission_for_mode`.
unfoldable pub get_permission_for_mode :
    {T : Type 0} ⦃i : ApkIpc T⦄ → T → PermissionMode → Option Text
get_permission_for_mode ⦃i⦄ x mode_generic = i.get_generic_permission x
get_permission_for_mode ⦃i⦄ x mode_any = i.get_generic_permission x
get_permission_for_mode ⦃i⦄ x mode_read = none
get_permission_for_mode ⦃i⦄ x mode_write = none

unfoldable pub requires_permission : {T : Type 0} ⦃i : ApkIpc T⦄ → T → Bool
unfolding get_permission_for_mode
requires_permission x = is_some (get_permission_for_mode x mode_any)

abbrev pub all_modes : List PermissionMode
all_modes = mode_read ∷ mode_write ∷ mode_generic ∷ []

unfoldable pub perms_match : {T : Type 0} ⦃i : ApkIpc T⦄ → T → T → Bool
unfolding requires_permission
perms_match device diff =
    if not (requires_permission device)
    then not (requires_permission diff)
    else all (λ m. same_option (get_permission_for_mode device m) (get_permission_for_mode diff m))
        all_modes

-- Exported flags match if they are the same.
abbrev pub exported_matches : Bool → Bool → Bool
exported_matches device diff = if device then diff else not diff

unfoldable pub get_and_cmp : Option Text → Option Text → Bool × Option Text
get_and_cmp (some dev) (some diff) = (same diff dev, some diff)
get_and_cmp none (some diff) = (false, some diff)
get_and_cmp dev none = (not (is_some dev), none)

-- `get_diffable`: all items but those that have a diff for the source.
unfoldable pub get_diffable :
    {S T : Type 0} → (T → ℕ) → (S → DbResult (List T)) → (S → DbResult (List ℕ)) → Exec S (List T)
get_diffable get_id get_all get_done = do
  everything ← query get_all
  done ← query get_done
  pure (retain (λ it. not (contains_id done (get_id it))) everything)

module _ {S : Type 0} (t : DiffTask S) where
  unfoldable pub cancel_check : Exec S (Unit {0})
  cancel_check w =
      (if t.cancel w.checks then err cancelled else ok tt, record w { checks = w.checks + 1 })

  apk_entry : Apk → Option Apk → InsertApkDiff
  apk_entry device diff = record {
    apk = device.id;
    diff_source = t.source.id;
    exists_in_diff = is_some diff;
  }

  unfoldable pub do_apk_diff : Apk → Option Apk → Exec S (Unit {0})
  unfolding apk_entry
  do_apk_diff device diff = do
    insert (t.database.add_apk_diff (apk_entry device diff))
    trigger (Inserts.apk device.id device.name (is_some diff))

  unfoldable pub get_diffable_apks : Exec S (List Apk)
  unfolding get_diffable
  get_diffable_apks =
      get_diffable (λ a. a.id) (λ s. (t.database.reads s).get_apks)
        (λ s. (t.database.reads s).get_apk_diffs_by_diff_id t.source.id)

  -- The APK of the same name in the other database.
  abbrev pub apk_in : List Apk → Apk → Option Apk
  apk_in diff_lst device = find_last (λ it. same it.name device.name) diff_lst

  unfoldable pub diff_apks : Exec S (Unit {0})
  unfolding get_diffable_apks do_apk_diff
  diff_apks = do
    device ← get_diffable_apks
    diff_lst ← lift t.diff_db.get_apks
    trigger (Inserts.apks_started (length device))
    for_each (λ d. do_apk_diff d (apk_in diff_lst d)) device
    trigger Inserts.apks_ended

  -- The closures that `diff_receivers`, `diff_services` and `diff_activities` hand on take the
  -- component, its number, and the three results.
  abbrev pub IpcInsert : Type 0 → Type 0
  IpcInsert T = T → ℕ → Bool → Bool → Bool → Exec S (Unit {0})

  unfoldable pub do_apk_ipc_diff :
      {T : Type 0} ⦃i : ApkIpc T⦄ → T → Option T → IpcInsert T → Exec S (Unit {0})
  unfolding perms_match
  do_apk_ipc_diff ⦃i⦄ device none insert_row = insert_row device (i.get_id device) false false false
  do_apk_ipc_diff ⦃i⦄ device (some diff) insert_row =
      insert_row device (i.get_id device) true
        (exported_matches (i.is_exported device) (i.is_exported diff)) (perms_match device diff)

  -- The component of the same class in the other database, by the equality of class names.
  abbrev pub ipc_in : {T : Type 0} ⦃i : ApkIpc T⦄ → List T → T → Option T
  ipc_in ⦃i⦄ diff device =
      find_last (λ it. ClassName.eq (i.get_class_name device) (i.get_class_name it).name) diff

  unfoldable pub diff_apk_ipc :
      {T : Type 0} ⦃i : ApkIpc T⦄ → List T → List T → IpcInsert T → Exec S (Unit {0})
  unfolding do_apk_ipc_diff
  diff_apk_ipc device diff insert_row =
      for_each (λ d. do_apk_ipc_diff d (ipc_in diff d) insert_row) device

  abbrev pub ipc_entry : ℕ → Bool → Bool → Bool → InsertIpcDiff
  ipc_entry id exists exported permission = record {
    item = id;
    diff_source = t.source.id;
    exists_in_diff = exists;
    exported_matches_diff = exported;
    permission_matches_diff = permission;
    diff_permission = none;
  }
