-- ===== src/Diff/Tests/Runs.antt =====
-- Whole runs, and runs of one system service.
use dtu.Prelude.{ℕ, ◌≡◌, refl, true, false, none, [], ◌∷◌, ltb, Text, codes, same}
use dtu.UnknownBool.{ub_true}
use dtu.Diff.Rows.{SystemService, SystemServiceMethod}
use dtu.Diff.Inserts
use dtu.Diff.Database.{Reads, not_found, database_error, unique_violation}
use dtu.Diff.Database
use dtu.Diff.Exec.{World, ok, err, db, cancelled, for_each, pure}
use dtu.Diff.Components.{DiffTask, diff_apks, cancel_check}
use dtu.Diff.SystemServices.{SystemServiceDiffTask, find_last, hash_matches, get_method_def}
use dtu.Diff.SystemServices
use dtu.Diff.Task.{
  run, diff_receivers, diff_services, diff_activities, diff_providers, diff_permissions,
}
use dtu.Diff.Results.Services.{run_new, run_known}
use dtu.Diff.Results.Runs.{run_cancelled, run_failed}
use dtu.Diff.Memory.{Memory, memory}
use dtu.Diff.Sample.{task, small, roomy, memory_of, device_reads, other_reads}

abbrev binder : SystemService
binder = record { id = 1; name = codes "b"; iface = none; can_get_binder = ub_true }

abbrev method_at : ℕ → Text → SystemServiceMethod
method_at i n = record {
  id = i;
  system_service_id = 1;
  transaction_id = 1;
  name = n;
  signature = none;
  return_type = none;
  smalisa_hash = none;
}

abbrev service_reads : Reads
service_reads = record device_reads {
  get_system_services = Database.ok (binder ∷ []);
  get_system_service_methods_by_service_id =
      λ i. Database.ok (method_at 1 (codes "m") ∷ method_at 2 (codes "n") ∷ []);
}

-- Another database with this service, which has the first method only.
abbrev known_reads : Reads
known_reads = record other_reads {
  get_system_service_by_name = λ n. Database.ok binder;
  get_system_service_methods_by_service_id = λ i. Database.ok (method_at 7 (codes "m") ∷ []);
}

abbrev service_world : World Memory
service_world = record roomy { state = record (memory_of 9) { base = service_reads } }

abbrev new_task : SystemServiceDiffTask Memory
new_task = record {
  source = task.source;
  database = memory;
  diff_db = other_reads;
  system_service = binder;
}

abbrev known_task : SystemServiceDiffTask Memory
known_task = record new_task { diff_db = known_reads }

run_new_example : SystemServices.run new_task service_world ≡ (
  ok tt,
  record service_world {
    state = record service_world.state {
      services_done = (1, 5) ∷ [];
      methods_done = (2, 5) ∷ (1, 5) ∷ [];
    };
    events = Inserts.system_service 1 (codes "b") false ∷ [];
  },
)
run_new_example =
    run_new new_task service_world (record service_world.state { services_done = (1, 5) ∷ [] })
      (record service_world.state {
        services_done = (1, 5) ∷ [];
        methods_done = (2, 5) ∷ (1, 5) ∷ [];
      })
      (method_at 1 (codes "m") ∷ method_at 2 (codes "n") ∷ []) refl refl refl refl

run_known_example : SystemServices.run known_task service_world ≡ (
  ok tt,
  record service_world {
    state = record service_world.state {
      services_done = (1, 5) ∷ [];
      methods_done = (2, 5) ∷ (1, 5) ∷ [];
    };
    events = Inserts.system_service 1 (codes "b") true ∷ [];
  },
)
unfolding find_last same get_method_def
run_known_example =
    run_known known_task service_world binder
      (record service_world.state { services_done = (1, 5) ∷ [] })
      (record service_world.state {
        services_done = (1, 5) ∷ [];
        methods_done = (2, 5) ∷ (1, 5) ∷ [];
      })
      (method_at 1 (codes "m") ∷ method_at 2 (codes "n") ∷ []) (method_at 7 (codes "m") ∷ []) refl
      refl refl refl refl

-- The flag reads true from its second check on.
abbrev cancelled_task : DiffTask Memory
cancelled_task = record task { cancel = λ n. ltb 0 n; do_system_services = false }

run_cancelled_example : run cancelled_task small ≡ (err cancelled, record small { checks = 2 })
unfolding cancel_check
run_cancelled_example =
    run_cancelled cancelled_task (pure tt ∷ [])
      (diff_receivers cancelled_task
        ∷ diff_activities cancelled_task
        ∷ diff_services cancelled_task
        ∷ diff_providers cancelled_task
        ∷ diff_permissions cancelled_task
        ∷ [])
      (diff_apks cancelled_task) small (record small { checks = 1 }) refl refl refl

-- The second APK's row is refused.
abbrev apks_only : DiffTask Memory
apks_only = record task { do_system_services = false }

abbrev refused_world : World Memory
refused_world = record small {
  state = record (memory_of 2) { apks_done = (2, 5) ∷ (1, 5) ∷ [] };
  events = Inserts.apks_started 2 ∷ Inserts.apk 2 (codes "b") false ∷ [];
  checks = 2;
}

run_failed_example : run apks_only small ≡ (err (db database_error), refused_world)
unfolding cancel_check diff_apks for_each find_last same
run_failed_example =
    run_failed apks_only (pure tt ∷ [])
      (diff_receivers apks_only
        ∷ diff_activities apks_only
        ∷ diff_services apks_only
        ∷ diff_providers apks_only
        ∷ diff_permissions apks_only
        ∷ [])
      (diff_apks apks_only) small (record small { checks = 1 }) refused_world (db database_error)
      refl refl refl refl
