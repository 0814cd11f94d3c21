-- ===== src/Pull/Decompile/Attempts.antt =====
-- What an attempt at a file writes down, where the database answers.
use dtu.Prelude.{
  ℕ, ◌+◌, ◌≡◌, refl, sym, ap, ap₂, ◌∙◌, ◌⊎◌, Bool, true, false, not, ◌&&◌, Option, none, some, List,
  [], ◌∷◌, ◌++◌, if◌then◌else◌, Text,
}
use mathlib.Core.Path.{subst}
use dtu.Diff.Database.{DbError}
use dtu.ProjectPath.{join}
use dtu.DevicePath.{DevicePath}
use dtu.Pull.FileTypes.{is_vdex}
use dtu.Pull.Files.{NormalizedDeviceFile, local_fs_name}
use dtu.Pull.Exec.{
  DecompileStatus, PullError, PullResult, ok, err, World, Outside, Action, called, continue, settle,
  result, raise, ◌>>=◌,
}
use dtu.Pull.Status.{
  should_decompile, should_pull, find_row, update_rows, update_decompile_status, new_status,
  create_new_decompile_status, or_create, or_not_found, get_decompile_status_by_device_path,
  get_path_decompile_status,
}
use dtu.Pull.Decompile.{
  Pull, is_ok_true, decompile_apk, attempted_status, record_attempt, record_pull_failure,
  with_update, host_path_of, with_host_path, pull_first, apk_after_pull, pull_apk, with_apk_status,
  pull_and_decompile_apk, do_decompile_file, with_file_status, do_decompile_normalized_file,
}
-- The row of a file and the rows with it: a file that has none gets a new one.
use dtu.Pull.Decompile.Rows.{
  or_new, rows_or_new, first_of, rows_of_path, find_row_lem, row_of, rows_with,
  pull_first-KeepsRows, decompile_apk-KeepsRows, do_decompile_file-KeepsRows,
}

module _ (o : Outside) (answers : (n : ℕ) → o.db_fails n ≡ none) where
  create_lem :
      (device_path : DevicePath) (w : World)
      → create_new_decompile_status o device_path w ≡ (
        ok (new_status o w.statuses device_path),
        record (called w) { statuses = w.statuses ++ new_status o w.statuses device_path ∷ [] },
      )
  unfolding create_new_decompile_status
  create_lem device_path w = rw (create_new_decompile_status, answers w.calls) refl

  query_lem :
      (device_path : DevicePath) (w : World)
      → get_decompile_status_by_device_path o device_path w
        ≡ or_not_found (find_row device_path w.statuses)
  query_lem device_path w = rw (get_decompile_status_by_device_path, answers w.calls) refl

  found_lem :
      (device_path : DevicePath) (w : World) (r : Option DecompileStatus)
      → (v : World) × (or_create o device_path (or_not_found r) (called w)
          ≡ (ok (or_new (new_status o w.statuses device_path) r), v))
        × (v.statuses ≡ rows_or_new w.statuses (new_status o w.statuses device_path) r)
  found_lem device_path w none = (
    record (called (called w)) {
      statuses = w.statuses ++ new_status o w.statuses device_path ∷ [];
    },
    create_lem device_path (called w),
    refl,
  )
  found_lem device_path w (some s) = (called w, refl, refl)

  get_status_lem :
      (device_path : DevicePath) (w : World)
      → (v : World) × (get_path_decompile_status o device_path w
          ≡ (ok (row_of o device_path w.statuses), v))
        × (v.statuses ≡ rows_with o device_path w.statuses)
  unfolding get_path_decompile_status
  get_status_lem device_path w =
      let (v, made, rows) =
        found_lem device_path w (first_of (rows_of_path device_path w.statuses)) in
      (
        v,
        ap (λ (r : DecompileStatus ⊎ DbError). or_create o device_path r (called w))
              (query_lem device_path w ∙ ap or_not_found (find_row_lem device_path w.statuses))
            ∙ made,
        rows,
      )

  update_lem :
      (s : DecompileStatus) (w : World)
      → update_decompile_status o s w
        ≡ (ok tt, record (called w) { statuses = update_rows s w.statuses })
  unfolding update_decompile_status
  update_lem s w = rw (update_decompile_status, answers w.calls) refl

  record_attempt_lem :
      (s : DecompileStatus) (res : PullResult Bool) (w : World)
      → record_attempt o s res w ≡ (
        res,
        record (called w) {
          statuses = update_rows (attempted_status s (is_ok_true res)) w.statuses;
        },
      )
  record_attempt_lem s (ok b) w =
      ap (λ (r : PullResult (Unit {0}) × World). settle r (λ u. result (with_update (ok b) u)))
        (update_lem (attempted_status s b) w)
  record_attempt_lem s (err e) w =
      ap (λ (r : PullResult (Unit {0}) × World). settle r (λ u. result (with_update (err e) u)))
        (update_lem (attempted_status s false) w)

  -- The rows after an attempt, with what it came to.
  abbrev Attempted : DecompileStatus → List DecompileStatus → PullResult Bool × World → Type 0
  Attempted s rows r = r.1.statuses ≡ update_rows (attempted_status s (is_ok_true r.0)) rows

  record_attempt-Attempted :
      (s : DecompileStatus) (rows : List DecompileStatus) (r : PullResult Bool × World)
      → r.1.statuses ≡ rows
      → Attempted s rows (settle r (record_attempt o s))
  record_attempt-Attempted s rows (res, v) e =
      subst (Attempted s rows) (sym (record_attempt_lem s res v))
        (ap (update_rows (attempted_status s (is_ok_true res))) e)

  pull_failure-Attempted :
      (s : DecompileStatus) (rows : List DecompileStatus) (x : PullError) (v : World)
      → s.decompiled ≡ false
      → v.statuses ≡ rows
      → Attempted s rows (record_pull_failure o s x v)
  pull_failure-Attempted s rows x v new e =
      subst (Attempted s rows)
        (sym (
          ap (λ (r : PullResult (Unit {0}) × World). settle {B = Bool} r (λ u. raise x))
            (update_lem (record s { decompile_attempts = s.decompile_attempts + 1 }) v)))
        (ap₂ update_rows
          (ap
            (λ (b : Bool). record s {
              decompile_attempts = s.decompile_attempts + 1;
              decompiled = b;
            })
            new)
          e)

  pull_apk-Attempted :
      (device_path : DevicePath) (s : DecompileStatus) (host_path : Text)
      (rows : List DecompileStatus) (w : World)
      → s.decompiled ≡ false
      → w.statuses ≡ rows
      → Attempted s rows (pull_apk o device_path s host_path w)
  pull_apk-Attempted device_path s host_path rows w new e =
      go (pull_first o (should_pull w.host_files s) device_path host_path w)
        ((pull_first-KeepsRows o (should_pull w.host_files s) device_path host_path).kept w ∙ e)
    where
      go :
          (r : PullResult (Unit {0}) × World)
          → r.1.statuses ≡ rows
          → Attempted s rows (settle r (apk_after_pull o s host_path))
      go (ok u, v) k =
          record_attempt-Attempted s rows (decompile_apk o host_path v)
            ((decompile_apk-KeepsRows o host_path).kept v ∙ k)
      go (err x, v) k = pull_failure-Attempted s rows x v new k

  unless_decompiled {ℓ} :
      {A : Type ℓ} (s : DecompileStatus) (x y z : A)
      → s.decompiled ≡ false
      → (if s.decompiled then x else if not (should_decompile s) then y else z) ≡ z
  unless_decompiled s x y z new = rw new refl

  with_apk_status-Attempted :
      (t : Pull) (device_path : DevicePath) (s : DecompileStatus) (rows : List DecompileStatus)
      (w : World)
      → s.decompiled ≡ false
      → w.statuses ≡ rows
      → Attempted
          (with_host_path (join t.apks_dir device_path.squashed_path) s)
          rows
          (with_apk_status o t device_path s w)
  with_apk_status-Attempted t device_path s rows w new e =
      let host_path = join t.apks_dir device_path.squashed_path in
      subst (Attempted (with_host_path host_path s) rows)
        (sym (unless_decompiled s (ok true, w) (ok false, w) _ new))
        (pull_apk-Attempted device_path (with_host_path host_path s)
          (host_path_of host_path s.host_path) rows w new e)

  with_file_status-Attempted :
      (t : Pull) (nf : NormalizedDeviceFile) (s : DecompileStatus) (rows : List DecompileStatus)
      (w : World)
      → s.decompiled ≡ false
      → w.statuses ≡ rows
      → Attempted
          (with_host_path (join t.frameworks_dir (local_fs_name nf)) s)
          rows
          (with_file_status o t nf s w)
  with_file_status-Attempted t nf s rows w new e =
      let computed = join t.frameworks_dir (local_fs_name nf) in
      let s' = with_host_path computed s in
      let pull = should_pull w.host_files s' in
      let host_path = host_path_of computed s.host_path in
      subst (Attempted s' rows) (sym (unless_decompiled s (ok true, w) (ok false, w) _ new)) (
        record_attempt-Attempted s' rows (do_decompile_file o host_path nf.device_path pull w)
          ((do_decompile_file-KeepsRows o host_path nf.device_path pull).kept w ∙ e))

  bound-Attempted :
      (device_path : DevicePath) (change : DecompileStatus → DecompileStatus)
      (f : DecompileStatus → Action Bool) (w : World)
      → ((v : World)
          → v.statuses ≡ rows_with o device_path w.statuses
          → Attempted
              (change (row_of o device_path w.statuses))
              (rows_with o device_path w.statuses)
              (f (row_of o device_path w.statuses) v))
      → Attempted
          (change (row_of o device_path w.statuses))
          (rows_with o device_path w.statuses)
          ((get_path_decompile_status o device_path >>= f) w)
  bound-Attempted device_path change f w h =
      let (v, made, rows) = get_status_lem device_path w in
      subst
        (λ (r : PullResult DecompileStatus × World).
          Attempted (change (row_of o device_path w.statuses)) (rows_with o device_path w.statuses)
            (continue r f))
        (sym made) (h v rows)

pub apk_rows :
    (o : Outside)
    → ((n : ℕ) → o.db_fails n ≡ none)
    → (t : Pull) (device_path : DevicePath) (w : World)
    → (row_of o device_path w.statuses).decompiled ≡ false
    → (pull_and_decompile_apk o t device_path w).1.statuses
      ≡ update_rows
          (attempted_status
            (with_host_path
              (join t.apks_dir device_path.squashed_path)
              (row_of o device_path w.statuses))
            (is_ok_true (pull_and_decompile_apk o t device_path w).0))
          (rows_with o device_path w.statuses)
unfolding pull_and_decompile_apk
apk_rows o answers t device_path w new =
    bound-Attempted o answers device_path
      (with_host_path (join t.apks_dir device_path.squashed_path)) (with_apk_status o t device_path)
      w
      (λ v rows.
        with_apk_status-Attempted o answers t device_path (row_of o device_path w.statuses)
          (rows_with o device_path w.statuses) v new rows)

pub file_rows :
    (o : Outside)
    → ((n : ℕ) → o.db_fails n ≡ none)
    → (t : Pull) (nf : NormalizedDeviceFile) (w : World)
    → (not t.try_vdex && is_vdex nf.file_type) ≡ false
    → (row_of o nf.device_path w.statuses).decompiled ≡ false
    → (do_decompile_normalized_file o t nf w).1.statuses
      ≡ update_rows
          (attempted_status
            (with_host_path
              (join t.frameworks_dir (local_fs_name nf))
              (row_of o nf.device_path w.statuses))
            (is_ok_true (do_decompile_normalized_file o t nf w).0))
          (rows_with o nf.device_path w.statuses)
unfolding do_decompile_normalized_file
file_rows o answers t nf w kind new =
    let s = row_of o nf.device_path w.statuses in
    let rows = rows_with o nf.device_path w.statuses in
    rw kind (
      bound-Attempted o answers nf.device_path
        (with_host_path (join t.frameworks_dir (local_fs_name nf))) (with_file_status o t nf) w
        (λ v e. with_file_status-Attempted o answers t nf s rows v new e))
