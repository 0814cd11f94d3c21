-- ===== src/Pull/Decompile.antt =====
-- One file is pulled and decompiled: the handlers of dtu/src/tasks/pull.rs. A file's status is read,
-- changed on the way, and written back. The directories of the options are there, and so is the one of
-- apktool's frameworks: where `get_frameworks_path` cannot make it, `decompile_apk` and
-- `do_pull_and_decompile_framework_apk` unwrap its error and panic, and nothing here is said of that run.
pub mod Rows
pub mod Attempts
pub mod Recorded
pub mod Skips
use dtu.Prelude.{◌+◌, Bool, true, false, not, ◌&&◌, Option, none, some, ◌∷◌, if◌then◌else◌, Text}
use dtu.ProjectPath.{join}
use dtu.DevicePath.{DevicePath}
use dtu.Pull.FileTypes.{is_vdex}
use dtu.Pull.Files.{NormalizedDeviceFile, local_fs_name}
use dtu.Pull.Exec.{
  DecompileStatus, PullError, pulling, pulling_done, decompiling, decompile_done, PullResult, ok,
  err, World, Outside, Action, called, pure, raise, result, settle, ◌>>=◌, ◌>>◌, send_event,
  attempted,
}
use dtu.Pull.Status.{
  should_decompile, should_pull, update_decompile_status, get_path_decompile_status,
}

-- The options that these handlers read, and the directories.
pub record Pull : Type 0 where
  pub try_vdex : Bool
  pub apks_dir : Text
  pub frameworks_dir : Text

abbrev pub is_ok_true : PullResult Bool → Bool
is_ok_true (ok success) = success
is_ok_true (err e) = false

-- A pull that succeeds has put the file on the host.
abbrev pub pulled : Bool → Text → World → World
pulled true host_path w = record w { host_files = host_path ∷ w.host_files }
pulled false host_path w = w

abbrev pub pull_answer : DevicePath → Text → Bool → Option PullError → Action (Unit {0})
pull_answer device_path host_path left none w =
    send_event (pulling_done device_path true) (pulled true host_path w)
pull_answer device_path host_path left (some e) w =
    (send_event (pulling_done device_path false) >> raise e) (pulled left host_path w)

-- The events around a decompiler's answer; `moved` is what follows a success.
abbrev pub answered : Text → Action (Unit {0}) → PullResult Bool → Action Bool
answered host_path moved (err e) = send_event (decompile_done host_path false) >> raise e
answered host_path moved (ok false) = send_event (decompile_done host_path false) >> pure false
answered host_path moved (ok true) =
    send_event (decompile_done host_path true) >> moved >> pure true

-- `res`, unless it is fine and the update is not.
abbrev pub with_update : PullResult Bool → PullResult (Unit {0}) → PullResult Bool
with_update (ok success) (ok u) = ok success
with_update (ok success) (err e) = err e
with_update (err e) r = err e

abbrev pub attempted_status : DecompileStatus → Bool → DecompileStatus
attempted_status s success = record s {
  decompile_attempts = s.decompile_attempts + 1;
  decompiled = success;
}

-- `status.host_path`, or the path that is computed for it.
abbrev pub host_path_of : Text → Option Text → Text
host_path_of computed none = computed
host_path_of computed (some p) = p

abbrev pub with_host_path : Text → DecompileStatus → DecompileStatus
with_host_path computed s = record s { host_path = some (host_path_of computed s.host_path) }

module _ (o : Outside) where
  unfoldable pub pull_file : DevicePath → Text → Action (Unit {0})
  pull_file device_path host_path = send_event (pulling device_path host_path) >> λ w.
      pull_answer device_path host_path (o.leaves_file w.calls)
        (o.transfer w.calls device_path host_path) (called w)

  abbrev pub decompiled_by : Text → Action (Unit {0}) → Action Bool
  decompiled_by host_path moved w =
      answered host_path moved (o.decompile w.calls host_path) (called w)

  unfoldable pub decompile_apk : Text → Action Bool
  decompile_apk host_path =
      send_event (decompiling host_path) >> decompiled_by host_path (attempted o)

  -- Counts the attempt and writes the status back.
  abbrev pub record_attempt : DecompileStatus → PullResult Bool → Action Bool
  record_attempt s res w =
      settle (update_decompile_status o (attempted_status s (is_ok_true res)) w)
        (λ r. result (with_update res r))

  -- The same where the file could not be pulled: `decompiled` is left alone.
  abbrev pub record_pull_failure : DecompileStatus → PullError → Action Bool
  record_pull_failure s e w =
      settle
        (update_decompile_status o (record s { decompile_attempts = s.decompile_attempts + 1 }) w)
        (λ r. raise e)

  abbrev pub pull_first : Bool → DevicePath → Text → Action (Unit {0})
  pull_first true device_path host_path = pull_file device_path host_path
  pull_first false device_path host_path = pure tt

  abbrev pub apk_after_pull : DecompileStatus → Text → PullResult (Unit {0}) → Action Bool
  apk_after_pull s host_path (err e) w = record_pull_failure s e w
  apk_after_pull s host_path (ok u) w = settle (decompile_apk host_path w) (record_attempt s)

  -- The status has its host path here.
  abbrev pub pull_apk : DevicePath → DecompileStatus → Text → Action Bool
  pull_apk device_path s host_path w =
      settle (pull_first (should_pull w.host_files s) device_path host_path w)
        (apk_after_pull s host_path)

  abbrev pub with_apk_status : Pull → DevicePath → DecompileStatus → Action Bool
  with_apk_status t device_path s w =
      if s.decompiled
      then (ok true, w)
      else if not (should_decompile s)
      then (ok false, w)
      else let s' = with_host_path (join t.apks_dir device_path.squashed_path) s in
        pull_apk device_path s'
          (host_path_of (join t.apks_dir device_path.squashed_path) s.host_path) w

  unfoldable pub pull_and_decompile_apk : Pull → DevicePath → Action Bool
  unfolding get_path_decompile_status update_decompile_status pull_file decompile_apk
  pull_and_decompile_apk t device_path =
      get_path_decompile_status o device_path >>= with_apk_status t device_path

  -- An apex file has the same events as a file of the other types.
  unfoldable pub do_decompile_file : Text → DevicePath → Bool → Action Bool
  do_decompile_file host_path device_path pull =
      pull_first pull device_path host_path
      >> send_event (decompiling host_path)
      >> attempted o
      >> decompiled_by host_path (pure tt)

  abbrev pub with_file_status : Pull → NormalizedDeviceFile → DecompileStatus → Action Bool
  with_file_status t nf s w =
      if s.decompiled
      then (ok true, w)
      else if not (should_decompile s)
      then (ok false, w)
      else let s' = with_host_path (join t.frameworks_dir (local_fs_name nf)) s in
        settle
          (do_decompile_file (host_path_of (join t.frameworks_dir (local_fs_name nf)) s.host_path)
            nf.device_path (should_pull w.host_files s') w)
          (record_attempt s')

  unfoldable pub do_decompile_normalized_file : Pull → NormalizedDeviceFile → Action Bool
  unfolding get_path_decompile_status update_decompile_status do_decompile_file
  do_decompile_normalized_file t nf =
      if not t.try_vdex && is_vdex nf.file_type
      then pure false
      else get_path_decompile_status o nf.device_path >>= with_file_status t nf

  abbrev pub framework_apk_once : Text → DevicePath → DecompileStatus → Action Bool
  framework_apk_once host_path device_path s w =
      (pull_first (should_pull w.host_files s) device_path host_path
          >> attempted o
          >> decompile_apk host_path)
        w

  abbrev pub finish_framework_apk : DecompileStatus → PullResult Bool → Action (Unit {0})
  finish_framework_apk s res = update_decompile_status o (attempted_status s (is_ok_true res))

  abbrev pub with_framework_apk_status : Pull → DevicePath → DecompileStatus → Action (Unit {0})
  with_framework_apk_status t device_path s w =
      if not (should_decompile s)
      then (ok tt, w)
      else let host_path = join t.frameworks_dir device_path.squashed_path in
        let s' = with_host_path host_path s in
        settle (framework_apk_once host_path device_path s' w) (finish_framework_apk s')

  unfoldable pub pull_and_decompile_framework_apk : Pull → DevicePath → Action (Unit {0})
  unfolding get_path_decompile_status update_decompile_status pull_file decompile_apk
  pull_and_decompile_framework_apk t device_path =
      get_path_decompile_status o device_path >>= with_framework_apk_status t device_path
