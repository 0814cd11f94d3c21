-- ===== src/Pull/Decompile/Recorded.antt =====
-- What the rows say behind an attempt at a file, where the database answers.
use dtu.Prelude.{
  ℕ, ◌+◌, ◌≡◌, refl, sym, ap, ap₂, ◌∙◌, Bool, true, false, not, ◌&&◌, ◌==◌, Option, none, some,
  List, [], ◌∷◌, Text, arith,
}
use mathlib.Core.Path.{subst}
use dtu.ProjectPath.{join}
use dtu.DevicePath.{DevicePath}
use dtu.Pull.FileTypes.{is_vdex}
use dtu.Pull.Files.{NormalizedDeviceFile, local_fs_name}
use dtu.Pull.Exec.{DecompileStatus, PullResult, ok, err, World, Outside}
use dtu.Pull.Status.{update_rows, change_row}
use dtu.Pull.Decompile.{
  Pull, is_ok_true, attempted_status, host_path_of, with_host_path, pull_and_decompile_apk,
  do_decompile_normalized_file,
}
use dtu.Pull.Decompile.Rows.{row_of, rows_with, known_path, attempt_of, has_succeeded, IsRecorded}
use dtu.Pull.Decompile.Attempts.{apk_rows, file_rows}

known_path_lem :
    (computed : Text) (h : Option Text) → host_path_of computed h ≡ known_path computed h
known_path_lem computed none = refl
known_path_lem computed (some p) = refl

has_succeeded_lem : (r : PullResult Bool) → is_ok_true r ≡ has_succeeded r
has_succeeded_lem (ok success) = refl
has_succeeded_lem (err e) = refl

abbrev written : Text → Bool → DecompileStatus → DecompileStatus
written computed success s = attempted_status (with_host_path computed s) success

changed_lem :
    (computed : Text) (success : Bool) (s old : DecompileStatus)
    → old.id ≡ s.id
    → change_row (written computed success s) old ≡ attempt_of computed success s
changed_lem computed success s old e =
    ap₂
      (λ (i : ℕ) (p : Text). record {
        id = i;
        device_path = s.device_path;
        host_path = some p;
        decompiled = success;
        decompile_attempts = s.decompile_attempts + 1;
      })
      e (known_path_lem computed s.host_path)

update_rows-IsRecorded :
    (computed : Text) (success : Bool) (s : DecompileStatus) (rows : List DecompileStatus)
    → IsRecorded
        (attempt_of computed success s)
        rows
        (update_rows (written computed success s) rows)
unfolding update_rows
update_rows-IsRecorded computed success s [] = tt
update_rows-IsRecorded computed success s (old ∷ rows) = (
  λ e.
      let same_id : (old.id == s.id) ≡ true = ground (arith, e) in
      rw same_id (changed_lem computed success s old e),
  λ other. let other_id : (old.id == s.id) ≡ false = ground (arith, other) in rw other_id refl,
  update_rows-IsRecorded computed success s rows,
)

-- Where the database answers and the directory of apktool's frameworks can be made, each attempt at an APK
-- that is not decompiled yet is written down whatever becomes of it: the rows are those from before, with
-- a new one for an APK that had none, and in that APK's row the attempts are one more, the host path is
-- set, and `decompiled` says whether the call succeeded, a failed transfer, tool or move being none. No
-- row with another number changes.
pub pull_and_decompile_apk_attempted :
    (o : Outside)
    → ((n : ℕ) → o.db_fails n ≡ none)
    → (t : Pull) (device_path : DevicePath) (w : World)
    → (row_of o device_path w.statuses).decompiled ≡ false
    → IsRecorded
        (attempt_of
          (join t.apks_dir device_path.squashed_path)
          (has_succeeded (pull_and_decompile_apk o t device_path w).0)
          (row_of o device_path w.statuses))
        (rows_with o device_path w.statuses)
        (pull_and_decompile_apk o t device_path w).1.statuses
pull_and_decompile_apk_attempted o answers t device_path w new =
    let s = row_of o device_path w.statuses in
    let rows = rows_with o device_path w.statuses in
    let computed = join t.apks_dir device_path.squashed_path in
    let r = pull_and_decompile_apk o t device_path w in
    subst (IsRecorded (attempt_of computed (has_succeeded r.0) s) rows)
      (sym (
        apk_rows o answers t device_path w new
        ∙ ap (λ (b : Bool). update_rows (written computed b s) rows) (has_succeeded_lem r.0)))
      (update_rows-IsRecorded computed (has_succeeded r.0) s rows)

-- Where the database answers, each attempt at a framework file that is not decompiled yet, and is no VDex
-- file to be left out, is written down whatever becomes of it: the rows are those from before, with a new
-- one for a file that had none, and in that file's row the attempts are one more, the host path is set,
-- and `decompiled` says whether the call succeeded. No row with another number changes.
pub do_decompile_normalized_file_attempted :
    (o : Outside)
    → ((n : ℕ) → o.db_fails n ≡ none)
    → (t : Pull) (nf : NormalizedDeviceFile) (w : World)
    → (not t.try_vdex && is_vdex nf.file_type) ≡ false
    → (row_of o nf.device_path w.statuses).decompiled ≡ false
    → IsRecorded
        (attempt_of
          (join t.frameworks_dir (local_fs_name nf))
          (has_succeeded (do_decompile_normalized_file o t nf w).0)
          (row_of o nf.device_path w.statuses))
        (rows_with o nf.device_path w.statuses)
        (do_decompile_normalized_file o t nf w).1.statuses
do_decompile_normalized_file_attempted o answers t nf w kind new =
    let s = row_of o nf.device_path w.statuses in
    let rows = rows_with o nf.device_path w.statuses in
    let computed = join t.frameworks_dir (local_fs_name nf) in
    let r = do_decompile_normalized_file o t nf w in
    subst (IsRecorded (attempt_of computed (has_succeeded r.0) s) rows)
      (sym (
        file_rows o answers t nf w kind new
        ∙ ap (λ (b : Bool). update_rows (written computed b s) rows) (has_succeeded_lem r.0)))
      (update_rows-IsRecorded computed (has_succeeded r.0) s rows)
