-- ===== src/Diff/Sample.antt =====
-- A small device, another database, and a task that compares them.
use dtu.Prelude.{ℕ, true, false, Option, none, some, List, [], ◌∷◌, take, Text, codes}
use dtu.UnknownBool.{ub_unknown}
use dtu.ClassName.{ClassName}
use dtu.ClassName
use dtu.DevicePath
use dtu.DevicePath.{DevicePath}
use dtu.Diff.Rows.{Permission, Apk, Receiver, Activity, Service, Provider}
use dtu.Diff.Database.{Reads, DeviceDatabase, not_found, database_error}
use dtu.Diff.Database
use dtu.Diff.Exec.{World}
use dtu.Diff.Components.{DiffTask, receiver_ipc}
use dtu.Diff.Memory.{Memory, memory}

abbrev pub apk_at : ℕ → Text → Apk
apk_at i n = record {
  id = i;
  app_name = n;
  name = n;
  is_debuggable = false;
  is_priv = true;
  device_path = DevicePath.new n;
}

abbrev pub receiver_at : ℕ → Text → Option Text → Receiver
receiver_at i n p = record {
  id = i;
  class_name = ClassName.new n;
  permission = p;
  exported = true;
  enabled = true;
  pkg = codes "p";
  apk_id = 1;
}

abbrev pub activity_at : ℕ → Text → Activity
activity_at i n = record {
  id = i;
  class_name = ClassName.new n;
  permission = none;
  exported = true;
  enabled = true;
  pkg = codes "p";
  apk_id = 1;
}

abbrev pub service_at : ℕ → Text → Service
service_at i n = record {
  id = i;
  class_name = ClassName.new n;
  permission = none;
  exported = true;
  enabled = true;
  pkg = codes "p";
  apk_id = 1;
  returns_binder = ub_unknown;
}

abbrev pub provider_at : ℕ → Text → Option Text → Provider
provider_at i n p = record {
  id = i;
  name = n;
  authorities = n;
  permission = p;
  grant_uri_permissions = false;
  read_permission = none;
  write_permission = p;
  exported = true;
  enabled = true;
  apk_id = 1;
}

abbrev pub permission_at : ℕ → Text → Text → Permission
permission_at i n l = record { id = i; name = n; protection_level = l; source_apk_id = 1 }

abbrev pub apks : List Apk
apks = apk_at 1 (codes "a") ∷ apk_at 2 (codes "b") ∷ apk_at 3 (codes "c") ∷ []

abbrev pub receivers : List Receiver
receivers = receiver_at 1 (codes "La;") none ∷ receiver_at 2 (codes "Lb;") (some (codes "r")) ∷ []

abbrev pub services : List Service
services = service_at 1 (codes "La;") ∷ service_at 2 (codes "Lb;") ∷ []

abbrev pub activities : List Activity
activities = activity_at 1 (codes "La;") ∷ activity_at 2 (codes "Lb;") ∷ []

abbrev pub providers : List Provider
providers = provider_at 1 (codes "q") none ∷ provider_at 2 (codes "s") (some (codes "r")) ∷ []

abbrev pub permissions : List Permission
permissions = permission_at 1 (codes "r") (codes "n") ∷ permission_at 2 (codes "w") (codes "n") ∷ []

-- A device with these components, and another database with the first of each.
abbrev pub device_reads : Reads
device_reads = record {
  get_system_services = Database.ok [];
  get_system_service_by_name = λ n. Database.err not_found;
  get_system_service_methods_by_service_id = λ i. Database.ok [];
  get_apks = Database.ok apks;
  get_receivers = Database.ok receivers;
  get_services = Database.ok services;
  get_activities = Database.ok activities;
  get_providers = Database.ok providers;
  get_permissions = Database.ok permissions;
  get_apk_diffs_by_diff_id = λ i. Database.ok [];
  get_receiver_diffs_by_diff_id = λ i. Database.ok [];
  get_service_diffs_by_diff_id = λ i. Database.ok [];
  get_activity_diffs_by_diff_id = λ i. Database.ok [];
  get_provider_diffs_by_diff_id = λ i. Database.ok [];
  get_permission_diffs_by_diff_id = λ i. Database.ok [];
}

abbrev pub other_reads : Reads
other_reads = record device_reads {
  get_apks = Database.ok (take 1 apks);
  get_receivers = Database.ok (take 1 receivers);
  get_services = Database.ok (take 1 services);
  get_activities = Database.ok (take 1 activities);
  get_providers = Database.ok (take 1 providers);
  get_permissions = Database.ok (take 1 permissions);
}

abbrev pub task : DiffTask Memory
task = record {
  source = record { id = 5; name = codes "aosp" };
  database = memory;
  diff_db = other_reads;
  cancel = λ n. false;
  do_system_services = true;
  do_apks = true;
}

abbrev pub memory_of : ℕ → Memory
memory_of n = record {
  base = device_reads;
  capacity = n;
  services_done = [];
  methods_done = [];
  apks_done = (1, 5) ∷ [];
  receivers_done = [];
  ipc_services_done = [];
  activities_done = [];
  providers_done = [];
  permissions_done = [];
}

-- The first APK has its diff already.
abbrev pub roomy : World Memory
roomy = record { state = memory_of 9; events = []; checks = 0 }

-- A database that takes two rows of each kind.
abbrev pub small : World Memory
small = record { state = memory_of 2; events = []; checks = 0 }

-- A database that takes one row of each kind.
abbrev pub tiny : World Memory
tiny = record { state = memory_of 1; events = []; checks = 0 }
