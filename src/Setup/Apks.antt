-- ===== src/Setup/Apks.antt =====
-- `AddApkTask` and the APKs of `DBSetupTask` in dtu/src/db/device/setup.rs. What the file system, the
-- device and the parsers of manifests and of smali give is an argument.
pub mod Runs
pub mod Loop
use dtu.Prelude.{
  ℕ, ◌+◌, ◌⊎◌, inl, inr, Bool, true, false, ◌&&◌, ◌||◌, Option, none, some, List, [], ◌∷◌, ◌++◌,
  if◌then◌else◌, length, retain, Text, codes, same, starts_with,
}
use dtu.ProjectPath.{join}
use dtu.DevicePath
use dtu.DevicePath.{DevicePath, PathError, device_file_name}
use dtu.ClassName.{ClassName}
use dtu.Manifest.References.{Files}
use dtu.Manifest.Resolvers.{ManifestResolver, apktool_resolver}
use dtu.Manifest.Items.{Manifest, bool_or_default}
use dtu.Diff.Database.{DbError}
use dtu.Setup.Rows.{
  InsertApk, Row, apk_row, device_property_rows, ServiceMeta, ApkIdentifier, SetupEvent,
  discovered_services, started_apks_for_dir, done_apks_for_dir, start_adding_apk, done_adding_apk,
  SetupError, invalid_manifest, base,
}
use dtu.Setup.Exec.{
  SetupResult, ok, err, World, Outside, Setup, pure, raise, continue, ◌>>=◌, ◌>>◌, on_event,
  for_each, cancel_check, insert, insert_or_ignore, accept_unique, with_transaction,
}
use dtu.Setup.Manifests.{SmaliMethod, AddManifestTask, run_manifest, unwrap_or}

pub record DirEntry : Type 0 where
  pub path : Text
  pub file_name : Option Text
  pub path_extension : Option Text
  pub is_dir : Bool

-- A manifest that is missing is `none`; one that cannot be read is `some none`. `matches_priv_app` is
-- the regular expression `PRIV_APP_REGEX`.
pub record SetupHelper : Type 0 where
  pub apks_dir : SetupResult Text
  pub read_dir : Text → SetupResult (List (Option DirEntry))
  pub list_packages : SetupResult (List Text)
  pub list_services : SetupResult (List ServiceMeta)
  pub get_props : SetupResult (List (Text × Text))
  pub matches_priv_app : Text → Bool
  pub manifest_at : Text → Option (Option Manifest)
  pub files : Files
  pub smali_of : DevicePath → ClassName → Option (List SmaliMethod)

-- `str::contains` for a text.
abbrev pub contains_str : Text → Text → Bool
contains_str [] part = starts_with [] part
contains_str (c ∷ s) part = starts_with (c ∷ s) part || contains_str s part

abbrev pub contains_text : List Text → Text → Bool
contains_text [] s = false
contains_text (t ∷ ts) s = same t s || contains_text ts s

abbrev pub is_priv_app : Option (List Text) → Text → Bool
is_priv_app none path = contains_str path (codes "/priv-app/")
is_priv_app (some apps) path = contains_text apps path

abbrev pub path_has_ext : Option Text → Text → Bool
path_has_ext none ext = false
path_has_ext (some it) ext = same it ext

abbrev pub apk_dirs : List (Option DirEntry) → List DirEntry
apk_dirs [] = []
apk_dirs (none ∷ entries) = apk_dirs entries
apk_dirs (some e ∷ entries) =
    let rest = apk_dirs entries in
    if e.is_dir && path_has_ext e.path_extension (codes "apk") then e ∷ rest else rest

abbrev pub lift : {A : Type 0} → SetupResult A → Setup A
lift r w = (r, w)

abbrev pub path_result : DevicePath ⊎ PathError → SetupResult DevicePath
path_result (inl p) = ok p
path_result (inr e) = err base

-- The result of an action that is not handed on: its success.
abbrev pub reported :
    {A : Type 0} → (Bool → SetupEvent) → SetupResult A × World → SetupResult A × World
reported evt (ok a, w) = (ok a, record w { events = w.events ++ evt true ∷ [] })
reported evt (err e, w) = (err e, record w { events = w.events ++ evt false ∷ [] })

abbrev pub ignored : {A : Type 0} → SetupResult A × World → SetupResult (Unit {0}) × World
ignored (ok a, w) = (ok tt, w)
ignored (err e, w) = (ok tt, w)

module _ (o : Outside) (helper : SetupHelper) where
  -- The number is what the database gives the new row.
  unfoldable pub insert_apk : InsertApk → Setup ℕ
  insert_apk row = do insert o (apk_row row); λ w. (ok (o.new_id w.rows), w)

  abbrev pub is_debug : ManifestResolver → Manifest → Bool
  is_debug resolver m = unwrap_or (bool_or_default resolver false m.application.debuggable) false

  module _ (identifier : ApkIdentifier) (out_dir : Text) (device_path : DevicePath)
      (priv_app_paths : Option (List Text)) where
    abbrev pub out_resolver : ManifestResolver
    out_resolver = apktool_resolver out_dir helper.files

    abbrev pub apk_entry : Manifest → InsertApk
    apk_entry m = record {
      app_name = out_resolver.resolve_string m.manifest_package;
      name = device_file_name device_path;
      is_debuggable = is_debug out_resolver m;
      is_priv = is_priv_app priv_app_paths device_path.raw_path;
      device_path = device_path;
    }

    abbrev pub manifest_task : Manifest → ℕ → AddManifestTask
    manifest_task m id = record {
      apk_id = id;
      pkg = out_resolver.resolve_string m.manifest_package;
      identifier = identifier;
      resolver = out_resolver;
      manifest = m;
      smali_of = helper.smali_of device_path;
    }

    unfoldable pub add_apk : Manifest → Setup (Unit {0})
    unfolding insert_apk
    add_apk m = do
      id ← insert_apk (apk_entry m)
      cancel_check o
      run_manifest o (manifest_task m id)

    abbrev pub run_manifest_file : Option (Option Manifest) → Setup (Unit {0})
    run_manifest_file none = pure tt
    run_manifest_file (some none) = raise invalid_manifest
    run_manifest_file (some (some m)) = add_apk m

    -- `AddApkTask::run`: an APK with no manifest adds nothing.
    unfoldable pub run_apk : Setup (Unit {0})
    unfolding add_apk
    run_apk = run_manifest_file (helper.manifest_at (join out_dir (codes "AndroidManifest.xml")))

  unfoldable pub do_apk : Text → DevicePath → ApkIdentifier → List Text → Setup (Unit {0})
  unfolding run_apk
  do_apk decompiled_dir device_path identifier priv_app_names = with_transaction o (
      run_apk identifier (join decompiled_dir device_path.squashed_path) device_path
        (some priv_app_names))

  -- The loop's body in `add_apk_files`: a failure of one APK is not handed on.
  unfoldable pub add_apk_file : Text → List Text → ℕ → ℕ → DirEntry → Setup (Unit {0})
  unfolding do_apk
  add_apk_file dir priv_app_names dir_id apk_id f = do
    cancel_check o
    device_path ← lift (path_result (DevicePath.from_path f.file_name))
    let identifier : ApkIdentifier = record { apk_id = apk_id; dir_id = dir_id }
    on_event (start_adding_apk device_path identifier)
    λ w.
        ignored (
          reported (done_adding_apk identifier)
            (do_apk dir device_path identifier priv_app_names w))

  unfoldable pub add_apk_loop : Text → List Text → ℕ → ℕ → List DirEntry → Setup ℕ
  add_apk_loop dir priv_app_names dir_id apk_id [] w = (ok apk_id, w)
  add_apk_loop dir priv_app_names dir_id apk_id (f ∷ files) w =
      continue (add_apk_file dir priv_app_names dir_id apk_id f w)
        (λ _. add_apk_loop dir priv_app_names dir_id (apk_id + 1) files)

  unfoldable pub list_priv_apps : Setup (List Text)
  list_priv_apps = do paths ← lift helper.list_packages; pure (retain helper.matches_priv_app paths)

  unfoldable pub add_apk_files : Text → List DirEntry → ℕ → ℕ → Setup ℕ
  unfolding list_priv_apps add_apk_loop
  add_apk_files dir files dir_id last_apk_id = do
    priv_app_names ← list_priv_apps
    add_apk_loop dir priv_app_names dir_id last_apk_id files

  unfoldable pub add_apks_from_dir : Text → ℕ → ℕ → Setup ℕ
  unfolding add_apk_files
  add_apks_from_dir dir dir_id last_apk_id = do
    cancel_check o
    entries ← lift (helper.read_dir dir)
    let files : List DirEntry = apk_dirs entries
    on_event (started_apks_for_dir dir dir_id (length files))
    λ w. reported (done_apks_for_dir dir_id) (add_apk_files dir files dir_id last_apk_id w)

  unfoldable pub add_apks : Setup (Unit {0})
  unfolding add_apks_from_dir
  add_apks = do
    dir ← lift helper.apks_dir
    last_apk_id ← add_apks_from_dir (join dir (codes "framework")) 0 0
    dir' ← lift helper.apks_dir
    _ ← add_apks_from_dir (join dir' (codes "decompiled")) 1 last_apk_id
    pure tt

  unfoldable pub add_device_props : Setup (Unit {0})
  add_device_props = do
    props ← lift helper.get_props
    insert_or_ignore o (device_property_rows props)

  -- The task that adds one system service is an argument.
  module _ (run_service : ℕ → ServiceMeta → Setup (Unit {0})) where
    unfoldable pub add_service_one : ℕ → ServiceMeta → Setup (Unit {0})
    add_service_one id s = do cancel_check o; λ w. accept_unique o (run_service id s w)

    unfoldable pub add_services : ℕ → List ServiceMeta → Setup (Unit {0})
    unfolding add_service_one
    add_services id [] w = (ok tt, w)
    add_services id (s ∷ services) w =
        continue (add_service_one id s w) (λ _. add_services (id + 1) services)

    -- `DBSetupTask::run`.
    unfoldable pub run_setup : Setup (Unit {0})
    unfolding add_apks add_services add_device_props
    run_setup = do
      add_apks
      entries ← lift helper.list_services
      on_event (discovered_services entries)
      add_services 0 entries
      add_device_props
