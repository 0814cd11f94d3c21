-- ===== src/Diff/Tests.antt =====
-- Runs of the comparison on a small device and another database.
mod Flags
mod Runs
use dtu.Prelude.{◌≡◌, refl, true, false, some, [], ◌∷◌, take, drop, codes, same}
use dtu.UnknownBool.{ub_true, ub_false, ub_unknown}
use dtu.ClassName.{ClassName}
use dtu.ClassName
use dtu.DevicePath
use dtu.DevicePath.{DevicePath}
use dtu.Diff.Rows.{
  Permission, Apk, Receiver, Activity, Service, Provider, SystemService, SystemServiceMethod,
  DiffSource,
}
use dtu.Diff.Inserts
use dtu.Diff.Inserts.{DiffEvent}
use dtu.Diff.Database.{Reads, DeviceDatabase, not_found, database_error}
use dtu.Diff.Database
use dtu.Diff.Exec.{World, ok, err, db, cancelled}
use dtu.Diff.Components.{
  DiffTask, diff_apks, get_diffable_apks, receiver_ipc, exported_matches, perms_match,
}
use dtu.Diff.SystemServices.{find_last, hash_matches, get_method_def}
use dtu.Diff.Task.{
  diff_receivers, diff_services, diff_activities, diff_providers, diff_permissions,
  get_diffable_receivers, get_diffable_services, get_diffable_activities, get_diffable_providers,
  get_diffable_permissions, provider_entry, permission_entry,
}
use dtu.Diff.Kind.{insert_rows, undone, finished, stopped}
use dtu.Diff.Kinds.{
  apk_kind, receiver_kind, service_kind, activity_kind, provider_kind, permission_kind,
}
use dtu.Diff.Results.Apks.{diff_apks_complete, diff_apks_resume}
use dtu.Diff.Results.Ipc.{
  diff_receivers_complete, diff_receivers_resume, diff_services_complete, diff_activities_complete,
}
use dtu.Diff.Results.Named.{
  diff_providers_complete, diff_providers_resume, diff_permissions_complete,
}
use dtu.Diff.Comparison.{
  ipc_flags_iff, provider_entry_iff, permission_entry_iff, find_last_lem, hash_matches_iff,
  hash_matches_itself,
}
use dtu.Diff.Memory.{
  Memory, memory, memory-ApkTableLaws, memory-ReceiverTableLaws, memory-ServiceTableLaws,
  memory-ActivityTableLaws, memory-ProviderTableLaws, memory-PermissionTableLaws,
}
use dtu.Diff.Sample.{
  apk_at, receiver_at, activity_at, service_at, provider_at, permission_at, apks, receivers,
  services, activities, providers, permissions, device_reads, other_reads, task, memory_of, roomy,
  small, tiny,
}

abbrev apk_run : World Memory
apk_run = record roomy {
  state = record (memory_of 9) { apks_done = (3, 5) ∷ ((2, 5) ∷ ((1, 5) ∷ [])) };
  events =
      Inserts.apks_started 2
      ∷ (Inserts.apk 2 (codes "b") false
          ∷ (Inserts.apk 3 (codes "c") false ∷ (Inserts.apks_ended ∷ [])));
}

diff_apks_complete_example :
    (diff_apks task roomy ≡ (ok tt, apk_run)) × (get_diffable_apks task apk_run ≡ (ok [], apk_run))
unfolding insert_rows find_last same
diff_apks_complete_example =
    diff_apks_complete task roomy (take 1 apks) apks (1 ∷ []) apk_run.state memory-ApkTableLaws refl
      refl refl refl

abbrev receiver_run : World Memory
receiver_run = record roomy {
  state = record (memory_of 9) { receivers_done = (2, 5) ∷ ((1, 5) ∷ []) };
  events =
      Inserts.receivers_started 2
      ∷ (Inserts.receiver 1 (ClassName.new (codes "La;")) true
          ∷ (Inserts.receiver 2 (ClassName.new (codes "Lb;")) false
              ∷ (Inserts.receivers_ended ∷ [])));
}

abbrev service_run : World Memory
service_run = record roomy {
  state = record (memory_of 9) { ipc_services_done = (2, 5) ∷ ((1, 5) ∷ []) };
  events =
      Inserts.services_started 2
      ∷ (Inserts.service 1 (ClassName.new (codes "La;")) true
          ∷ (Inserts.service 2 (ClassName.new (codes "Lb;")) false
              ∷ (Inserts.services_ended ∷ [])));
}

abbrev activity_run : World Memory
activity_run = record roomy {
  state = record (memory_of 9) { activities_done = (2, 5) ∷ ((1, 5) ∷ []) };
  events =
      Inserts.activities_started 2
      ∷ (Inserts.activity 1 (ClassName.new (codes "La;")) true
          ∷ (Inserts.activity 2 (ClassName.new (codes "Lb;")) false
              ∷ (Inserts.activities_ended ∷ [])));
}

abbrev provider_run : World Memory
provider_run = record roomy {
  state = record (memory_of 9) { providers_done = (2, 5) ∷ ((1, 5) ∷ []) };
  events =
      Inserts.providers_started 2
      ∷ (Inserts.provider 1 (codes "q") true
          ∷ (Inserts.provider 2 (codes "s") false ∷ (Inserts.providers_ended ∷ [])));
}

abbrev permission_run : World Memory
permission_run = record roomy {
  state = record (memory_of 9) { permissions_done = (2, 5) ∷ ((1, 5) ∷ []) };
  events =
      Inserts.permissions_started 2
      ∷ (Inserts.permission 1 (codes "r") true true
          ∷ (Inserts.permission 2 (codes "w") false false ∷ (Inserts.permissions_ended ∷ [])));
}

abbrev apk_stop : World Memory
apk_stop = record small {
  state = record (memory_of 2) { apks_done = (2, 5) ∷ ((1, 5) ∷ []) };
  events = Inserts.apks_started 2 ∷ (Inserts.apk 2 (codes "b") false ∷ []);
}

diff_apks_resume_example :
    (diff_apks task small ≡ (err (db database_error), apk_stop))
    × (get_diffable_apks task apk_stop ≡ (ok (drop 2 apks), apk_stop))
unfolding insert_rows find_last same
diff_apks_resume_example =
    diff_apks_resume task small (take 1 apks) apks (apk_at 2 (codes "b") ∷ []) []
      (apk_at 3 (codes "c")) (1 ∷ []) apk_stop.state database_error memory-ApkTableLaws refl refl
      refl refl refl refl refl

abbrev receiver_stop : World Memory
receiver_stop = record tiny {
  state = record (memory_of 1) { receivers_done = (1, 5) ∷ [] };
  events =
      Inserts.receivers_started 2 ∷ (Inserts.receiver 1 (ClassName.new (codes "La;")) true ∷ []);
}

abbrev provider_stop : World Memory
provider_stop = record tiny {
  state = record (memory_of 1) { providers_done = (1, 5) ∷ [] };
  events = Inserts.providers_started 2 ∷ (Inserts.provider 1 (codes "q") true ∷ []);
}
