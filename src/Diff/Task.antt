-- ===== src/Diff/Task.antt =====
-- `DiffTask`: the kinds of components one by one, and the whole run.
use dtu.Prelude.{true, false, not, Option, none, some, List, if◌then◌else◌, length, same}
use dtu.Diff.Rows.{Permission, Receiver, Activity, Service, Provider, SystemService}
use dtu.Diff.Inserts
use dtu.Diff.Inserts.{InsertProviderDiff, InsertPermissionDiff}
use dtu.Diff.Exec.{Exec, pure, lift, trigger, query, insert, for_each, ◌>>=◌, ◌>>◌}
use dtu.Diff.SystemServices.{SystemServiceDiffTask, find_last}
use dtu.Diff.SystemServices
use dtu.Diff.Components.{
  DiffTask, receiver_ipc, activity_ipc, service_ipc, IpcInsert, cancel_check, get_diffable,
  diff_apks, diff_apk_ipc, ipc_entry, is_some, exported_matches, get_and_cmp,
}

module _ {S : Type 0} (t : DiffTask S) where
  unfoldable pub insert_receiver : IpcInsert t Receiver
  insert_receiver rcv id exists exported permission = do
    insert (t.database.add_receiver_diff (ipc_entry t id exists exported permission))
    trigger (Inserts.receiver id rcv.class_name exists)

  unfoldable pub get_diffable_receivers : Exec S (List Receiver)
  unfolding get_diffable
  get_diffable_receivers =
      get_diffable (λ r. r.id) (λ s. (t.database.reads s).get_receivers)
        (λ s. (t.database.reads s).get_receiver_diffs_by_diff_id t.source.id)

  unfoldable pub diff_receivers : Exec S (Unit {0})
  unfolding get_diffable_receivers insert_receiver diff_apk_ipc
  diff_receivers = do
    device ← get_diffable_receivers
    diff ← lift t.diff_db.get_receivers
    trigger (Inserts.receivers_started (length device))
    diff_apk_ipc t device diff insert_receiver
    trigger Inserts.receivers_ended

  unfoldable pub insert_service : IpcInsert t Service
  insert_service svc id exists exported permission = do
    insert (t.database.add_service_diff (ipc_entry t id exists exported permission))
    trigger (Inserts.service id svc.class_name exists)

  unfoldable pub get_diffable_services : Exec S (List Service)
  unfolding get_diffable
  get_diffable_services =
      get_diffable (λ r. r.id) (λ s. (t.database.reads s).get_services)
        (λ s. (t.database.reads s).get_service_diffs_by_diff_id t.source.id)

  unfoldable pub diff_services : Exec S (Unit {0})
  unfolding get_diffable_services insert_service diff_apk_ipc
  diff_services = do
    device ← get_diffable_services
    diff ← lift t.diff_db.get_services
    trigger (Inserts.services_started (length device))
    diff_apk_ipc t device diff insert_service
    trigger Inserts.services_ended

  unfoldable pub insert_activity : IpcInsert t Activity
  insert_activity act id exists exported permission = do
    insert (t.database.add_activity_diff (ipc_entry t id exists exported permission))
    trigger (Inserts.activity id act.class_name exists)

  unfoldable pub get_diffable_activities : Exec S (List Activity)
  unfolding get_diffable
  get_diffable_activities =
      get_diffable (λ r. r.id) (λ s. (t.database.reads s).get_activities)
        (λ s. (t.database.reads s).get_activity_diffs_by_diff_id t.source.id)

  unfoldable pub diff_activities : Exec S (Unit {0})
  unfolding get_diffable_activities insert_activity diff_apk_ipc
  diff_activities = do
    device ← get_diffable_activities
    diff ← lift t.diff_db.get_activities
    trigger (Inserts.activities_started (length device))
    diff_apk_ipc t device diff insert_activity
    trigger Inserts.activities_ended

  provider_not_in_diff : Provider → InsertProviderDiff
  provider_not_in_diff device = record {
    provider = device.id;
    diff_source = t.source.id;
    exists_in_diff = false;
    exported_matches_diff = false;
    permission_matches_diff = false;
    diff_permission = none;
    read_permission_matches_diff = false;
    diff_read_permission = none;
    write_permission_matches_diff = false;
    diff_write_permission = none;
  }

  provider_in_diff : Provider → Provider → InsertProviderDiff
  provider_in_diff device diff =
      let perm = get_and_cmp device.permission diff.permission in
      let read_perm = get_and_cmp device.read_permission diff.read_permission in
      let write_perm = get_and_cmp device.write_permission diff.write_permission in
      record {
        provider = device.id;
        diff_source = t.source.id;
        exists_in_diff = true;
        exported_matches_diff = exported_matches device.exported diff.exported;
        permission_matches_diff = perm.0;
        diff_permission = perm.1;
        read_permission_matches_diff = read_perm.0;
        diff_read_permission = read_perm.1;
        write_permission_matches_diff = write_perm.0;
        diff_write_permission = write_perm.1;
      }

  -- The row of a provider, in the other database or not.
  unfoldable pub provider_entry : Provider → Option Provider → InsertProviderDiff
  unfolding provider_not_in_diff provider_in_diff
  provider_entry device none = provider_not_in_diff device
  provider_entry device (some diff) = provider_in_diff device diff

  -- `do_provider_diff` with `do_provider_not_in_diff`.
  unfoldable pub do_provider_diff : Provider → Option Provider → Exec S (Unit {0})
  unfolding provider_entry
  do_provider_diff device diff = do
    insert (t.database.add_provider_diff (provider_entry device diff))
    trigger (Inserts.provider device.id device.authorities (is_some diff))

  unfoldable pub get_diffable_providers : Exec S (List Provider)
  unfolding get_diffable
  get_diffable_providers =
      get_diffable (λ p. p.id) (λ s. (t.database.reads s).get_providers)
        (λ s. (t.database.reads s).get_provider_diffs_by_diff_id t.source.id)

  unfoldable pub diff_providers : Exec S (Unit {0})
  unfolding get_diffable_providers do_provider_diff
  diff_providers = do
    device ← get_diffable_providers
    diff_lst ← lift t.diff_db.get_providers
    trigger (Inserts.providers_started (length device))
    for_each (λ d. do_provider_diff d (find_last (λ it. same it.name d.name) diff_lst)) device
    trigger Inserts.providers_ended

  -- The row of a permission; the levels match if both databases have the same text.
  unfoldable pub permission_entry : Permission → Option Permission → InsertPermissionDiff
  permission_entry perm none = record {
    permission = perm.id;
    diff_source = t.source.id;
    exists_in_diff = false;
    protection_level_matches_diff = false;
    diff_protection_level = none;
  }
  permission_entry perm (some diff) = record {
    permission = perm.id;
    diff_source = t.source.id;
    exists_in_diff = true;
    protection_level_matches_diff = same perm.protection_level diff.protection_level;
    diff_protection_level = some diff.protection_level;
  }

  unfoldable pub do_permission_diff : Permission → Option Permission → Exec S (Unit {0})
  unfolding permission_entry
  do_permission_diff perm diff =
      let ins = permission_entry perm diff in
      do
        insert (t.database.add_permission_diff ins)
        trigger
            (Inserts.permission perm.id perm.name ins.protection_level_matches_diff (is_some diff))

  unfoldable pub get_diffable_permissions : Exec S (List Permission)
  unfolding get_diffable
  get_diffable_permissions =
      get_diffable (λ p. p.id) (λ s. (t.database.reads s).get_permissions)
        (λ s. (t.database.reads s).get_permission_diffs_by_diff_id t.source.id)

  unfoldable pub diff_permissions : Exec S (Unit {0})
  unfolding get_diffable_permissions do_permission_diff
  diff_permissions = do
    device_perms ← get_diffable_permissions
    diff_perms ← lift t.diff_db.get_permissions
    trigger (Inserts.permissions_started (length device_perms))
    for_each (λ d. do_permission_diff d (find_last (λ p. same p.name d.name) diff_perms))
        device_perms
    trigger Inserts.permissions_ended

  service_task : SystemService → SystemServiceDiffTask S
  service_task s = record {
    source = t.source;
    database = t.database;
    diff_db = t.diff_db;
    system_service = s;
  }

  -- Every service is compared, whether or not it has a diff; the flag is read behind each.
  unfoldable pub diff_system_services : Exec S (Unit {0})
  unfolding service_task SystemServices.run
  diff_system_services = do
    system_services ← query (λ s. (t.database.reads s).get_system_services)
    trigger (Inserts.system_services_started (length system_services))
    for_each (λ s. SystemServices.run (service_task s) >> cancel_check t) system_services
    trigger Inserts.system_services_ended

  -- The part of `run` behind the return for `!self.do_apks`.
  unfoldable pub run_apks : Exec S (Unit {0})
  run_apks = do
    cancel_check t
    diff_apks t
    cancel_check t
    diff_receivers
    cancel_check t
    diff_activities
    cancel_check t
    diff_services
    cancel_check t
    diff_providers
    cancel_check t
    diff_permissions

  unfoldable pub run : Exec S (Unit {0})
  unfolding run_apks
  run = do
    cancel_check t
    if t.do_system_services then diff_system_services else pure tt
    if not t.do_apks then pure tt else run_apks
