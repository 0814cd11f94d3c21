-- ===== src/Setup/Tests.antt =====
-- The theorems at a small manifest.
use dtu.Prelude.{
  ◌≡◌, refl, ◌⊎◌, inl, inr, true, false, ◌||◌, Option, none, some, List, [], ◌∷◌, ◌++◌, length,
  codes,
}
use dtu.DevicePath.{DevicePath, from_squashed}
use dtu.Manifest.Resolvers.{noop_resolver}
use dtu.Manifest.Items.{Ipc, Application, Manifest}
use dtu.Diff.Database.{DbError, unique_violation}
use dtu.Setup.Rows.{Row, permission_row, ApkIdentifier, SetupError}
use dtu.Setup.Exec.{SetupResult, ok, err, World, Outside}
use dtu.Setup.Written.{world}
use dtu.Setup.Manifests.{AddManifestTask, from_ipc, is_exported, is_enabled, run_manifest}
use dtu.Setup.Manifests.Written.{
  component_rows, shared_rows, manifest_events, kept, run_manifest_written,
}
use dtu.Setup.Manifests.Success.{run_manifest_succeeds, is_shared}
use dtu.Setup.Apks.{SetupHelper, DirEntry, do_apk, add_apk_files}
use dtu.Setup.Apks.Runs.{apk_rows, do_apk_atomic}
use dtu.Setup.Apks.Loop.{add_apk_files_succeeds}
use dtu.Setup.Progress.{SetupState, MetaCalls, setup, is_ok, setup_progress}

-- The permissions are there already.
abbrev refuses : List Row → Row → Option DbError
refuses rows (permission_row p) = some unique_violation
refuses rows _ = none

abbrev outside : Outside
outside = record {
  refuses = refuses;
  commit_fails = λ rows. none;
  new_id = λ rows. length rows;
  cancel = λ n. false;
}

abbrev receiver : Ipc
receiver = record {
  ipc_name = codes ".R";
  ipc_enabled = some (codes "false");
  ipc_exported = none;
  ipc_permission = none;
  intent_filters = [];
}

abbrev application : Application
application = record {
  debuggable = none;
  allow_backup = none;
  activities = [];
  activity_aliases = [];
  providers = [];
  receivers = receiver ∷ [];
  services = receiver ∷ [];
}

abbrev manifest : Manifest
manifest = record {
  manifest_package = codes "x.y";
  uses_permissions = codes "A" ∷ [] ∷ [];
  permissions = record { permission_name = codes "B"; permission_protection_level = none } ∷ [];
  protected_broadcasts = codes "C" ∷ [];
  application = application;
}

abbrev task : AddManifestTask
task = record {
  apk_id = 1;
  pkg = codes "x.y";
  identifier = record { apk_id = 0; dir_id = 0 };
  resolver = noop_resolver;
  manifest = manifest;
  smali_of = λ class. none;
}

abbrev empty : World
empty = record { rows = []; events = []; checks = 0 }

abbrev after_run : World
after_run = (run_manifest outside task empty).1

run_manifest_written_example :
    after_run
    ≡ world
        (component_rows outside task
          ++ kept outside (component_rows outside task) (shared_rows outside task))
        (manifest_events outside task)
        4
unfolding run_manifest dtu.Setup.Manifests.add_manifest_receivers dtu.Setup.Exec.for_each
    dtu.Setup.Exec.insert dtu.Setup.Exec.cancel_check dtu.Setup.Manifests.add_manifest_services
    dtu.Setup.Manifests.add_manifest_providers dtu.Setup.Manifests.add_manifest_activities
    dtu.Setup.Manifests.add_manifest_permissions dtu.Setup.Exec.insert_or_ignore
    dtu.Setup.Manifests.add_protected_broadcasts
run_manifest_written_example = run_manifest_written outside task empty after_run refl

takes : (row : Row) (rows : List Row) → is_shared row ≡ false → refuses rows row ≡ none
takes (permission_row p) rows own = absurd (cc own)
takes _ rows own = refl

shares :
    (row : Row) (rows : List Row)
    → is_shared row ≡ true
    → (refuses rows row ≡ none) ⊎ (refuses rows row ≡ some unique_violation)
shares (permission_row p) rows own = inr refl
shares _ rows own = inl refl

run_manifest_succeeds_example : (w' : World) × (run_manifest outside task empty ≡ (ok tt, w'))
run_manifest_succeeds_example = run_manifest_succeeds outside task (λ n. refl) takes shares empty

abbrev helper : SetupHelper
helper = record {
  apks_dir = ok (codes "apks");
  read_dir = λ dir. ok [];
  list_packages = ok [];
  list_services = ok [];
  get_props = ok [];
  matches_priv_app = λ path. false;
  manifest_at = λ path. some (some manifest);
  files = [];
  smali_of = λ path class. none;
}

abbrev apk_path : DevicePath
apk_path = from_squashed (codes "%a%b.apk")

abbrev identifier : ApkIdentifier
identifier = record { apk_id = 0; dir_id = 0 }

abbrev apk_run : SetupResult (Unit {0}) × World
apk_run = do_apk outside helper (codes "apks/framework") apk_path identifier [] empty

do_apk_atomic_example :
    ((e : SetupError) × (apk_run.0 ≡ err e) × (apk_run.1.rows ≡ []))
    ⊎ ((apk_run.0 ≡ ok tt)
        × (apk_run.1.rows
            ≡ apk_rows outside helper identifier
                (codes "apks/framework/%a%b.apk")
                apk_path
                (some [])
                []
                manifest))
unfolding dtu.ProjectPath.join from_squashed
do_apk_atomic_example =
    do_apk_atomic outside helper (codes "apks/framework") apk_path identifier [] manifest apk_run.0
      empty apk_run.1 refl refl

abbrev entry : DirEntry
entry = record {
  path = codes "apks/framework/%a%b.apk";
  file_name = some (codes "%a%b.apk");
  path_extension = some (codes "apk");
  is_dir = true;
}

add_apk_files_succeeds_example :
    (w' : World) × (add_apk_files outside helper
        (codes "apks/framework")
        (entry ∷ entry ∷ [])
        0
        3
        empty
      ≡ (ok 5, w'))
add_apk_files_succeeds_example =
    add_apk_files_succeeds outside helper (codes "apks/framework") (entry ∷ entry ∷ []) [] 0 3 empty
      (λ n. refl) refl ((codes "%a%b.apk", refl), ((codes "%a%b.apk", refl), tt))

abbrev calls : MetaCalls
calls = record {
  get_progress = none;
  reset_progress = none;
  reset_emulator_diff = none;
  update_progress = none;
  wipe = λ w. ok empty;
}

abbrev done_before : SetupState
done_before = record { sql_database_setup = true; emulator_diff = true; world = empty }

setup_progress_example :
    (setup calls (run_manifest outside task) true done_before).1.sql_database_setup ≡ (
      is_ok calls
        (run_manifest outside task)
        (setup calls (run_manifest outside task) true done_before).0
      || false)
setup_progress_example = setup_progress calls (run_manifest outside task) true done_before
