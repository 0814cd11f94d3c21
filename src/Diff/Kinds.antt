-- ===== src/Diff/Kinds.antt =====
-- Each method of `DiffTask` that compares one kind of component is a run of that kind: which row and
-- which event an item gets.
use dtu.Prelude.{ℕ, ◌≡◌, refl, fun_ext, Bool, false, Option, none, some, List, arith, same}
use dtu.Diff.Rows.{Permission, Apk, Receiver, Activity, Service, Provider}
use dtu.Diff.Inserts
use dtu.Diff.Inserts.{InsertApkDiff, InsertIpcDiff, InsertProviderDiff, InsertPermissionDiff}
use dtu.Diff.Database
use dtu.Diff.Exec.{World}
use dtu.Diff.SystemServices.{find_last}
use dtu.Diff.Components.{
  DiffTask, ApkIpc, receiver_ipc, activity_ipc, service_ipc, IpcInsert, diff_apks, do_apk_ipc_diff,
  ipc_entry, ipc_in, apk_in, is_some, exported_matches, perms_match,
}
use dtu.Diff.Task.{
  diff_receivers, diff_services, diff_activities, diff_providers, diff_permissions, provider_entry,
  permission_entry, insert_receiver, insert_service, insert_activity,
}
use dtu.Diff.Kind.{Kind, run_kind, step}

-- The results for a component, with its counterpart or without one.
abbrev pub ipc_exported : {T : Type 0} ⦃i : ApkIpc T⦄ → T → Option T → Bool
ipc_exported d none = false
ipc_exported ⦃i⦄ d (some o) = exported_matches (i.is_exported d) (i.is_exported o)

abbrev pub ipc_permission : {T : Type 0} ⦃i : ApkIpc T⦄ → T → Option T → Bool
ipc_permission d none = false
ipc_permission d (some o) = perms_match d o

abbrev pub permission_matches : Permission → Option Permission → Bool
permission_matches d none = false
permission_matches d (some o) = same d.protection_level o.protection_level

module _ {S : Type 0} (t : DiffTask S) where
  abbrev pub ipc_row : {T : Type 0} ⦃i : ApkIpc T⦄ → List T → T → InsertIpcDiff
  ipc_row ⦃i⦄ lst d =
      ipc_entry t (i.get_id d) (is_some (ipc_in t lst d)) (ipc_exported d (ipc_in t lst d))
        (ipc_permission d (ipc_in t lst d))

  do_apk_ipc_diff_lem :
      {T : Type 0} ⦃i : ApkIpc T⦄ (d : T) (o : Option T) (ins : IpcInsert t T)
      → do_apk_ipc_diff t d o ins
        ≡ ins d (i.get_id d) (is_some o) (ipc_exported d o) (ipc_permission d o)
  unfolding do_apk_ipc_diff
  do_apk_ipc_diff_lem d none ins = refl
  do_apk_ipc_diff_lem d (some o) ins = refl

  abbrev pub apk_kind : List Apk → Kind S Apk InsertApkDiff
  apk_kind lst = record {
    get_id = λ d. d.id;
    get_all = λ s. (t.database.reads s).get_apks;
    get_done = λ s. (t.database.reads s).get_apk_diffs_by_diff_id t.source.id;
    add = t.database.add_apk_diff;
    row = λ d. record {
      apk = d.id;
      diff_source = t.source.id;
      exists_in_diff = is_some (apk_in t lst d);
    };
    event = λ d. Inserts.apk d.id d.name (is_some (apk_in t lst d));
  }

  pub diff_apks-kind :
      (w : World S) (lst everything : List Apk) (ids : List ℕ)
      → t.diff_db.get_apks ≡ Database.ok lst
      → (t.database.reads w.state).get_apks ≡ Database.ok everything
      → (t.database.reads w.state).get_apk_diffs_by_diff_id t.source.id ≡ Database.ok ids
      → diff_apks t w ≡ run_kind (apk_kind lst) Inserts.apks_started Inserts.apks_ended w
  unfolding diff_apks run_kind
  diff_apks-kind w lst everything ids hl ha hd = ground (arith, hl, ha, hd)

  abbrev pub receiver_kind : List Receiver → Kind S Receiver InsertIpcDiff
  receiver_kind lst = record {
    get_id = λ d. d.id;
    get_all = λ s. (t.database.reads s).get_receivers;
    get_done = λ s. (t.database.reads s).get_receiver_diffs_by_diff_id t.source.id;
    add = t.database.add_receiver_diff;
    row = ipc_row lst;
    event = λ d. Inserts.receiver d.id d.class_name (is_some (ipc_in t lst d));
  }

  receiver_steps :
      (lst : List Receiver)
      → (λ d. do_apk_ipc_diff t d (ipc_in t lst d) (insert_receiver t)) ≡ step (receiver_kind lst)
  unfolding insert_receiver
  receiver_steps lst = fun_ext (λ d. do_apk_ipc_diff_lem d (ipc_in t lst d) (insert_receiver t))

  pub diff_receivers-kind :
      (w : World S) (lst everything : List Receiver) (ids : List ℕ)
      → t.diff_db.get_receivers ≡ Database.ok lst
      → (t.database.reads w.state).get_receivers ≡ Database.ok everything
      → (t.database.reads w.state).get_receiver_diffs_by_diff_id t.source.id ≡ Database.ok ids
      → diff_receivers t w
        ≡ run_kind (receiver_kind lst) Inserts.receivers_started Inserts.receivers_ended w
  unfolding diff_receivers run_kind
  diff_receivers-kind w lst everything ids hl ha hd = ground (arith, hl, ha, hd, receiver_steps lst)

  abbrev pub service_kind : List Service → Kind S Service InsertIpcDiff
  service_kind lst = record {
    get_id = λ d. d.id;
    get_all = λ s. (t.database.reads s).get_services;
    get_done = λ s. (t.database.reads s).get_service_diffs_by_diff_id t.source.id;
    add = t.database.add_service_diff;
    row = ipc_row lst;
    event = λ d. Inserts.service d.id d.class_name (is_some (ipc_in t lst d));
  }

  service_steps :
      (lst : List Service)
      → (λ d. do_apk_ipc_diff t d (ipc_in t lst d) (insert_service t)) ≡ step (service_kind lst)
  unfolding insert_service
  service_steps lst = fun_ext (λ d. do_apk_ipc_diff_lem d (ipc_in t lst d) (insert_service t))

  pub diff_services-kind :
      (w : World S) (lst everything : List Service) (ids : List ℕ)
      → t.diff_db.get_services ≡ Database.ok lst
      → (t.database.reads w.state).get_services ≡ Database.ok everything
      → (t.database.reads w.state).get_service_diffs_by_diff_id t.source.id ≡ Database.ok ids
      → diff_services t w
        ≡ run_kind (service_kind lst) Inserts.services_started Inserts.services_ended w
  unfolding diff_services run_kind
  diff_services-kind w lst everything ids hl ha hd = ground (arith, hl, ha, hd, service_steps lst)

  abbrev pub activity_kind : List Activity → Kind S Activity InsertIpcDiff
  activity_kind lst = record {
    get_id = λ d. d.id;
    get_all = λ s. (t.database.reads s).get_activities;
    get_done = λ s. (t.database.reads s).get_activity_diffs_by_diff_id t.source.id;
    add = t.database.add_activity_diff;
    row = ipc_row lst;
    event = λ d. Inserts.activity d.id d.class_name (is_some (ipc_in t lst d));
  }

  activity_steps :
      (lst : List Activity)
      → (λ d. do_apk_ipc_diff t d (ipc_in t lst d) (insert_activity t)) ≡ step (activity_kind lst)
  unfolding insert_activity
  activity_steps lst = fun_ext (λ d. do_apk_ipc_diff_lem d (ipc_in t lst d) (insert_activity t))

  pub diff_activities-kind :
      (w : World S) (lst everything : List Activity) (ids : List ℕ)
      → t.diff_db.get_activities ≡ Database.ok lst
      → (t.database.reads w.state).get_activities ≡ Database.ok everything
      → (t.database.reads w.state).get_activity_diffs_by_diff_id t.source.id ≡ Database.ok ids
      → diff_activities t w
        ≡ run_kind (activity_kind lst) Inserts.activities_started Inserts.activities_ended w
  unfolding diff_activities run_kind
  diff_activities-kind w lst everything ids hl ha hd =
      ground (arith, hl, ha, hd, activity_steps lst)

  abbrev pub named_provider : List Provider → Provider → Option Provider
  named_provider lst d = find_last (λ it. same it.name d.name) lst

  abbrev pub provider_kind : List Provider → Kind S Provider InsertProviderDiff
  provider_kind lst = record {
    get_id = λ d. d.id;
    get_all = λ s. (t.database.reads s).get_providers;
    get_done = λ s. (t.database.reads s).get_provider_diffs_by_diff_id t.source.id;
    add = t.database.add_provider_diff;
    row = λ d. provider_entry t d (named_provider lst d);
    event = λ d. Inserts.provider d.id d.authorities (is_some (named_provider lst d));
  }

  pub diff_providers-kind :
      (w : World S) (lst everything : List Provider) (ids : List ℕ)
      → t.diff_db.get_providers ≡ Database.ok lst
      → (t.database.reads w.state).get_providers ≡ Database.ok everything
      → (t.database.reads w.state).get_provider_diffs_by_diff_id t.source.id ≡ Database.ok ids
      → diff_providers t w
        ≡ run_kind (provider_kind lst) Inserts.providers_started Inserts.providers_ended w
  unfolding diff_providers run_kind
  diff_providers-kind w lst everything ids hl ha hd = ground (arith, hl, ha, hd)

  abbrev pub named_permission : List Permission → Permission → Option Permission
  named_permission lst d = find_last (λ it. same it.name d.name) lst

  abbrev pub permission_kind : List Permission → Kind S Permission InsertPermissionDiff
  permission_kind lst = record {
    get_id = λ d. d.id;
    get_all = λ s. (t.database.reads s).get_permissions;
    get_done = λ s. (t.database.reads s).get_permission_diffs_by_diff_id t.source.id;
    add = t.database.add_permission_diff;
    row = λ d. permission_entry t d (named_permission lst d);
    event = λ d.
        Inserts.permission d.id d.name (permission_matches d (named_permission lst d))
          (is_some (named_permission lst d));
  }

  pub diff_permissions-kind :
      (w : World S) (lst everything : List Permission) (ids : List ℕ)
      → t.diff_db.get_permissions ≡ Database.ok lst
      → (t.database.reads w.state).get_permissions ≡ Database.ok everything
      → (t.database.reads w.state).get_permission_diffs_by_diff_id t.source.id ≡ Database.ok ids
      → diff_permissions t w
        ≡ run_kind (permission_kind lst) Inserts.permissions_started Inserts.permissions_ended w
  unfolding diff_permissions run_kind
  diff_permissions-kind w lst everything ids hl ha hd = ground (arith, hl, ha, hd)
