-- ===== src/Pull/Run.antt =====
-- The whole pull: the frameworks, then the APKs, then the progress of the project. The workers are
-- modelled as one that takes what was sent in its order; the thread that finds the APKs ends before.
pub mod Progress
use dtu.Prelude.{
  ℕ, zero, suc, ◌+◌, ◌-◌, ◌*◌, ◌/◌, ◌%◌, ◌^◌, ◌≤◌, ◌<◌, String, ◌≡◌, refl, sym, ap, ap₂, ◌∙◌,
  fun_ext, ◌≢◌, ◌↔◌, ◌⊎◌, inl, inr, Bool, true, false, not, ◌&&◌, ◌||◌, Option, none, some, List,
  [], ◌∷◌, ◌++◌, map, append-nil, append_assoc, map-append, arith, ltb, leb, ◌==◌, if◌then◌else◌,
  ==_iff, ==-refl, Bool-cases, Option-cases, length, take, drop, all, is_empty, retain,
  length-append, all-append, retain-append, Text, codes, same, same_iff, same_refl, contains,
  contains-append, starts_with_char, ends_with_char, ends_with_char-append, starts_with,
  starts_with-append, trim_start_matches, trim_end_matches, split_once, rsplit_once, split_once_lem,
  split_once-append, rsplit_once-none, rsplit_once-append, rsplit_once-eq-none, rsplit_once-eq-some,
}
use dtu.Diff.Database.{DbError}
use dtu.DevicePath.{DevicePath, new}
use dtu.Pull.Files.{NormalizedDeviceFile, FileMap}
use dtu.Pull.Exec.{
  PullError, cancelled, db_error, PullResult, ok, err, World, Outside, Action, called, pure, raise,
  result, continue, settle, ◌>>=◌, ◌>>◌, send_event, attempted, of_db_error,
}
use dtu.Pull.Decompile.{Pull, pull_and_decompile_apk, pull_and_decompile_framework_apk}
use dtu.Pull.Filesets.{handle_normalized_fileset}
use dtu.Pull.Finding.{Listing, find_apks, find_applicable_framework_files}

pub record Options : Type 0 where
  pub worker_threads : ℕ
  pub try_vdex : Bool
  pub force : Bool
  pub retry : Bool

abbrev pub min_worker_threads : ℕ
min_worker_threads = 2

-- `Options::default` and `Options::from_context`.
abbrev pub default_options : Options
default_options = record {
  worker_threads = min_worker_threads;
  try_vdex = false;
  force = false;
  retry = true;
}

abbrev pub from_context : ℕ → Options
from_context target_api_level = record default_options { try_vdex = ltb target_api_level 29 }

abbrev pub get_worker_threads_count : Options → ℕ
get_worker_threads_count opts =
    if leb min_worker_threads opts.worker_threads then opts.worker_threads else min_worker_threads

-- What the device lists.
pub record Device : Type 0 where
  pub framework_dirs : List Listing
  pub apks : List Text

module _ (o : Outside) where
  abbrev pub check_cancelled : Action (Unit {0})
  check_cancelled w = (if o.cancel w.calls then err cancelled else ok tt, called w)

  abbrev pub update_progress : Action (Unit {0})
  update_progress w = elim (o.db_fails w.calls) [
    | none ↦ (ok tt, record (called w) { completed = true })
    | some e ↦ (err (db_error e), called w)
  ]

  abbrev pub get_progress : Action Bool
  get_progress w = (of_db_error (o.db_fails w.calls) w.completed, called w)

module _ (o : Outside) (t : Pull) where
  -- The results of the workers are dropped, here and below.
  unfoldable pub apk_worker : List Text → World → World
  apk_worker [] w = called w
  apk_worker (apk ∷ apks) w = elim (o.cancel w.calls) [
    | true ↦ called w
    | false ↦ apk_worker apks (pull_and_decompile_apk o t (new apk) (called w)).1
  ]

  abbrev pub apks_sent : (PullResult (Unit {0}) × List Text) × World → PullResult (Unit {0}) × World
  apks_sent ((r, sent), w) = (r, apk_worker sent w)

  unfoldable pub pull_apks : List Text → Action (Unit {0})
  unfolding apk_worker find_apks
  pull_apks lines = attempted o >> λ w. apks_sent (find_apks o lines w)

  unfoldable pub framework_apks : List DevicePath → World → World
  framework_apks [] w = w
  framework_apks (apk ∷ apks) w = elim (o.cancel w.calls) [
    | true ↦ framework_apks apks (called w)
    | false ↦ framework_apks apks (pull_and_decompile_framework_apk o t apk (called w)).1
  ]

  unfoldable pub fileset_worker : FileMap → World → World
  fileset_worker [] w = called w
  fileset_worker ((name, files) ∷ file_map) w = elim (o.cancel w.calls) [
    | true ↦ called w
    | false ↦ fileset_worker file_map (handle_normalized_fileset o t files (called w)).1
  ]

  abbrev pub frameworks_found : List DevicePath × FileMap → Action (Unit {0})
  frameworks_found (apks, file_map) w = (ok tt, fileset_worker file_map (framework_apks apks w))

  unfoldable pub pull_framework : List Listing → Action (Unit {0})
  unfolding framework_apks fileset_worker find_applicable_framework_files
  pull_framework listings =
      attempted o >> find_applicable_framework_files o listings >>= frameworks_found

  unfoldable pub run : Device → Action (Unit {0})
  unfolding pull_apks pull_framework
  run d =
      check_cancelled o
      >> pull_framework d.framework_dirs
      >> check_cancelled o
      >> pull_apks d.apks
      >> update_progress o

  abbrev pub unless_completed : Options → Device → Bool → Action (Unit {0})
  unless_completed opts d done w =
      if done && not (opts.force || opts.retry) then (ok tt, w) else (attempted o >> run d) w

  -- The first attempt stands for the environment and the executables, the second for the cache's tag.
  unfoldable pub pull : Options → Device → Action (Unit {0})
  unfolding run
  pull opts d = attempted o >> get_progress o >>= unless_completed opts d
