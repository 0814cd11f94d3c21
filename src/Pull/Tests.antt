-- ===== src/Pull/Tests.antt =====
-- The theorems at a small device.
use dtu.Prelude.{
  inr, ℕ, ◌≡◌, refl, true, false, none, List, [], ◌∷◌, leb, if◌then◌else◌, length, is_empty, Text,
  codes,
}
use dtu.DevicePath.{new}
use dtu.Pull.FileTypes.{FrameworkFileType, jar, vdex, apk}
use dtu.Pull.Files.{NormalizedDeviceFile, receive_all, local_fs_name}
use dtu.Pull.Files.Grouping.{lookup, group_of, as_entry, apk_paths, receive_all_groups}
use dtu.Pull.Exec.{ok, err, decompile_error, World, Outside, called}
use dtu.Pull.Status.{
  exists, find_row, get_path_decompile_status, update_decompile_status, create_new_decompile_status,
  update_rows,
}
use dtu.Pull.Decompile.{
  Pull, pull_and_decompile_apk, do_decompile_file, pull_file, pull_and_decompile_framework_apk,
  do_decompile_normalized_file,
}
use dtu.Pull.Decompile.Rows.{row_of, rows_with, attempt_of, has_succeeded, IsRecorded}
use dtu.Pull.Decompile.Recorded.{
  pull_and_decompile_apk_attempted, do_decompile_normalized_file_attempted,
}
use dtu.Pull.Decompile.Skips.{decompiled_once}
use dtu.Pull.Filesets.{handle_normalized_fileset}
use dtu.Pull.Filesets.Outcomes.{outcomes, verdict, handle_normalized_fileset_lem}
use dtu.Pull.Finding.{find_apks}
use dtu.Pull.Finding.Once.{AreDistinct, find_apks_once}
use dtu.Pull.Run.{Device, pull_framework, run}
use dtu.Pull.Run.Progress.{run_completes}
use dtu.ProjectPath.{join}

abbrev file : FrameworkFileType → NormalizedDeviceFile
file ty = record {
  device_path = new (codes "/system/framework/a");
  base_dir = codes "/system/framework";
  fname = codes "a";
  file_type = ty;
}

-- The flag is set from one read on, and what is decompiled early fails.
abbrev outside : ℕ → Outside
outside stop = record {
  cancel = λ n. leb stop n;
  db_fails = λ n. none;
  new_id = λ rows. length rows;
  transfer = λ n device host. none;
  leaves_file = λ n. false;
  decompile = λ n host. if leb n 5 then err decompile_error else ok true;
  attempt = λ n. none;
}

-- The flag is never set.
abbrev calm : Outside
calm = record (outside 0) { cancel = λ n. false }

abbrev pull : Pull
pull = record { try_vdex = true; apks_dir = codes "/apks"; frameworks_dir = codes "/fw" }

abbrev empty : World
empty = record { statuses = []; host_files = []; events = []; completed = false; calls = 0 }

receive_all_groups_example :
    ((name : Text)
      → lookup name (receive_all (file vdex ∷ file apk ∷ file jar ∷ []) ([], [])).1
        ≡ as_entry (group_of name (file vdex ∷ file apk ∷ file jar ∷ [])))
    × ((receive_all (file vdex ∷ file apk ∷ file jar ∷ []) ([], [])).0
        ≡ apk_paths (file vdex ∷ file apk ∷ file jar ∷ []))
receive_all_groups_example = receive_all_groups (file vdex ∷ file apk ∷ file jar ∷ [])

handle_normalized_fileset_example :
    handle_normalized_fileset calm pull (file jar ∷ file vdex ∷ []) empty ≡ (
      verdict (ok tt) (outcomes calm pull (file jar ∷ file vdex ∷ []) empty).0,
      (outcomes calm pull (file jar ∷ file vdex ∷ []) empty).1,
    )
handle_normalized_fileset_example =
    handle_normalized_fileset_lem calm pull (file jar ∷ file vdex ∷ []) empty

pull_and_decompile_apk_attempted_example :
    IsRecorded
      (attempt_of
        (join pull.apks_dir (new (codes "/a.apk")).squashed_path)
        (has_succeeded (pull_and_decompile_apk calm pull (new (codes "/a.apk")) empty).0)
        (row_of calm (new (codes "/a.apk")) empty.statuses))
      (rows_with calm (new (codes "/a.apk")) empty.statuses)
      (pull_and_decompile_apk calm pull (new (codes "/a.apk")) empty).1.statuses
pull_and_decompile_apk_attempted_example =
    pull_and_decompile_apk_attempted calm (λ n. refl) pull (new (codes "/a.apk")) empty refl

do_decompile_normalized_file_attempted_example :
    IsRecorded
      (attempt_of
        (join pull.frameworks_dir (local_fs_name (file vdex)))
        (has_succeeded (do_decompile_normalized_file calm pull (file vdex) empty).0)
        (row_of calm (file vdex).device_path empty.statuses))
      (rows_with calm (file vdex).device_path empty.statuses)
      (do_decompile_normalized_file calm pull (file vdex) empty).1.statuses
do_decompile_normalized_file_attempted_example =
    do_decompile_normalized_file_attempted calm (λ n. refl) pull (file vdex) empty refl refl

abbrev late : World
late = record empty { calls = 9 }

abbrev behind_jar : World
behind_jar = (do_decompile_normalized_file calm pull (file jar) late).1

decompiled_once_example :
    (pull_and_decompile_apk calm pull (file jar).device_path behind_jar
      ≡ (ok true, called behind_jar))
    × (pull_and_decompile_framework_apk calm pull (file jar).device_path behind_jar
        ≡ (ok tt, called behind_jar))
    × (do_decompile_normalized_file calm pull (file jar) behind_jar ≡ (ok true, called behind_jar))
unfolding do_decompile_normalized_file get_path_decompile_status find_row do_decompile_file
    pull_file update_decompile_status update_rows create_new_decompile_status
decompiled_once_example =
    decompiled_once calm (λ n. refl) pull (file jar) late behind_jar refl (inr refl)

abbrev listed : List Text
listed = codes "/a.apk" ∷ [] ∷ codes "/a.apk" ∷ []

find_apks_once_example :
    ((p : Text) → is_empty p ≡ false → exists p (find_apks calm listed empty).0.1 ≡ exists p listed)
    × AreDistinct (find_apks calm listed empty).0.1
find_apks_once_example = find_apks_once calm (λ n. refl) listed empty

abbrev device : Device
device = record { framework_dirs = []; apks = codes "/a.apk" ∷ [] }

-- The flag is set when the APK has been found and before a worker takes it.
run_completes_example :
    (w' : World) × (run (outside 11) pull device empty ≡ (ok tt, w')) × (w'.completed ≡ true)
unfolding pull_framework
run_completes_example =
    run_completes (outside 11) (λ n. refl) (λ n. refl) pull device empty
      (pull_framework (outside 11) pull [] (called empty)).1 refl refl refl
