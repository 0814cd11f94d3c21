-- ===== src/Pull/Decompile/Skips.antt =====
-- What was decompiled is left alone from then on.
use dtu.Prelude.{
  Option, ◌==◌, List, [], ◌∷◌, inr, same, arith, Bool, Bool-cases, ◌++◌, same_refl, sym, Text, ℕ,
  ◌≡◌, refl, ap, ◌∙◌, ◌⊎◌, inl, true, false, not, ◌&&◌, none, some,
}
use mathlib.Core.Path.{subst}
use dtu.Diff.Database.{DbError}
use dtu.ProjectPath.{join}
use dtu.DevicePath.{DevicePath}
use dtu.Pull.FileTypes.{is_vdex}
use dtu.Pull.Files.{NormalizedDeviceFile, local_fs_name}
use dtu.Pull.Exec.{DecompileStatus, PullResult, ok, World, Outside, Action, called, continue, ◌>>=◌}
use dtu.Pull.Status.{
  find_row, update_rows, change_row, get_path_decompile_status, get_decompile_status_by_device_path,
  or_create,
}
use dtu.Pull.Decompile.{
  Pull, is_ok_true, attempted_status, with_host_path, pull_and_decompile_apk,
  pull_and_decompile_framework_apk, do_decompile_normalized_file, with_apk_status, with_file_status,
  with_framework_apk_status,
}
use dtu.Pull.Decompile.Rows.{
  or_new, rows_or_new, first_of, rows_of_path, fresh_row, row_of, rows_with, find_row_lem,
}
use dtu.Pull.Decompile.Attempts.{apk_rows, file_rows}

module _ (o : Outside) (answers : (n : ℕ) → o.db_fails n ≡ none) (device_path : DevicePath)
    (s : DecompileStatus) (w : World) (found : find_row device_path w.statuses ≡ some s) where
  found_status : get_path_decompile_status o device_path w ≡ (ok s, called w)
  unfolding get_path_decompile_status
  found_status =
      let query : get_decompile_status_by_device_path o device_path w ≡ inl s =
        rw (get_decompile_status_by_device_path, answers w.calls, found) refl in
      ap (λ (r : DecompileStatus ⊎ DbError). or_create o device_path r (called w)) query

  -- The query alone, where the row decides.
  bound_skip :
      {A : Type 0} (f : DecompileStatus → Action A) (a : A)
      → f s (called w) ≡ (ok a, called w)
      → (get_path_decompile_status o device_path >>= f) w ≡ (ok a, called w)
  bound_skip f a h = ap (λ (r : PullResult DecompileStatus × World). continue r f) found_status ∙ h

find_row-first :
    (device_path : DevicePath) (row : DecompileStatus) (rows : List DecompileStatus)
    → same row.device_path.raw_path device_path.raw_path ≡ true
    → find_row device_path (row ∷ rows) ≡ some row
unfolding find_row
find_row-first device_path row rows h = rw h refl

find_row-rest :
    (device_path : DevicePath) (row : DecompileStatus) (rows : List DecompileStatus)
    → same row.device_path.raw_path device_path.raw_path ≡ false
    → find_row device_path (row ∷ rows) ≡ find_row device_path rows
unfolding find_row
find_row-rest device_path row rows h = rw h refl

found_path :
    (device_path : DevicePath) (s : DecompileStatus) (rows : List DecompileStatus)
    → find_row device_path rows ≡ some s
    → same s.device_path.raw_path device_path.raw_path ≡ true
unfolding find_row
found_path device_path s [] e = cc e
found_path device_path s (row ∷ rows) e =
    elim (Bool-cases (same row.device_path.raw_path device_path.raw_path)) [
      | inl m ↦
          let is_row : row ≡ s = cc (sym (find_row-first device_path row rows m) ∙ e) in
          subst (λ (r : DecompileStatus). same r.device_path.raw_path device_path.raw_path ≡ true)
            is_row m
      | inr m ↦ found_path device_path s rows (sym (find_row-rest device_path row rows m) ∙ e)
    ]

find_row-append :
    (device_path : DevicePath) (s : DecompileStatus) (rows : List DecompileStatus)
    → find_row device_path rows ≡ none
    → same s.device_path.raw_path device_path.raw_path ≡ true
    → find_row device_path (rows ++ s ∷ []) ≡ some s
find_row-append device_path s [] e own = find_row-first device_path s [] own
find_row-append device_path s (row ∷ rows) e own =
    elim (Bool-cases (same row.device_path.raw_path device_path.raw_path)) [
      | inl m ↦ cc (sym e ∙ find_row-first device_path row rows m)
      | inr m ↦
          find_row-rest device_path row (rows ++ s ∷ []) m
          ∙ find_row-append device_path s rows (sym (find_row-rest device_path row rows m) ∙ e) own
    ]

find_row-row_of :
    (o : Outside) (device_path : DevicePath) (rows : List DecompileStatus)
    → find_row device_path (rows_with o device_path rows) ≡ some (row_of o device_path rows)
find_row-row_of o device_path rows =
    go (first_of (rows_of_path device_path rows)) (find_row_lem device_path rows)
  where
    go :
        (r : Option DecompileStatus)
        → find_row device_path rows ≡ r
        → find_row device_path (rows_or_new rows (fresh_row o device_path rows) r)
          ≡ some (or_new (fresh_row o device_path rows) r)
    go none e =
        find_row-append device_path (fresh_row o device_path rows) rows e
          (same_refl device_path.raw_path)
    go (some s) e = e

-- The row of a path that has just been stored as decompiled.
find_row-decompiled :
    (device_path : DevicePath) (u s : DecompileStatus) (rows : List DecompileStatus)
    → find_row device_path rows ≡ some s
    → u.id ≡ s.id
    → same u.device_path.raw_path device_path.raw_path ≡ true
    → u.decompiled ≡ true
    → (s' : DecompileStatus) × (find_row device_path (update_rows u rows) ≡ some s')
      × (s'.decompiled ≡ true)
unfolding update_rows
find_row-decompiled device_path u s [] e same_id own done = cc (sym e ∙ find_row_lem device_path [])
find_row-decompiled device_path u s (row ∷ rows) e same_id own done =
    elim (Bool-cases (row.id == u.id)) [
      | inl i ↦ rw i (
        change_row u row,
        find_row-first device_path (change_row u row) (update_rows u rows) own,
        done,
      )
      | inr i ↦ elim (Bool-cases (same row.device_path.raw_path device_path.raw_path)) [
        | inl m ↦
            let is_row : row ≡ s = cc (sym (find_row-first device_path row rows m) ∙ e) in
            let ids = ap (λ (r : DecompileStatus). r.id) is_row ∙ sym same_id in
            ground (arith, ids, i)
        | inr m ↦
            let (s', found, d) =
              find_row-decompiled device_path u s rows
                (sym (find_row-rest device_path row rows m) ∙ e) same_id own done in
            rw i (s', find_row-rest device_path row (update_rows u rows) m ∙ found, d)
      ]
    ]

-- What an attempt that said yes leaves, whether it did something or not.
abbrev IsDone : DevicePath → World → Type 0
IsDone device_path v =
    (s : DecompileStatus) × (find_row device_path v.statuses ≡ some s) × (s.decompiled ≡ true)

update_rows-IsDone :
    (o : Outside) (device_path : DevicePath) (computed : Text) (w v : World)
    → v.statuses
      ≡ update_rows
          (attempted_status (with_host_path computed (row_of o device_path w.statuses)) true)
          (rows_with o device_path w.statuses)
    → IsDone device_path v
update_rows-IsDone o device_path computed w v e =
    let s = row_of o device_path w.statuses in
    let rows = rows_with o device_path w.statuses in
    let found = find_row-row_of o device_path w.statuses in
    let (s', at, d) =
      find_row-decompiled device_path (attempted_status (with_host_path computed s) true) s rows
        found refl (found_path device_path s rows found) refl in
    (s', ap (find_row device_path) e ∙ at, d)

row_of-IsDone :
    (o : Outside) (device_path : DevicePath) (w : World)
    → (row_of o device_path w.statuses).decompiled ≡ true
    → IsDone device_path w
row_of-IsDone o device_path w d =
    go (first_of (rows_of_path device_path w.statuses)) (find_row_lem device_path w.statuses) d
  where
    go :
        (r : Option DecompileStatus)
        → find_row device_path w.statuses ≡ r
        → (or_new (fresh_row o device_path w.statuses) r).decompiled ≡ true
        → IsDone device_path w
    go none found old = cc old
    go (some s) found old = (s, found, old)

module _ (o : Outside) (answers : (n : ℕ) → o.db_fails n ≡ none) (t : Pull) where
  skip_apk :
      (device_path : DevicePath) (w : World)
      → IsDone device_path w
      → pull_and_decompile_apk o t device_path w ≡ (ok true, called w)
  unfolding pull_and_decompile_apk
  skip_apk device_path w (s, found, done) =
      bound_skip o answers device_path s w found (with_apk_status o t device_path) true
        (rw (with_apk_status, done) refl)

  skip_framework_apk :
      (device_path : DevicePath) (w : World)
      → IsDone device_path w
      → pull_and_decompile_framework_apk o t device_path w ≡ (ok tt, called w)
  unfolding pull_and_decompile_framework_apk
  skip_framework_apk device_path w (s, found, done) =
      bound_skip o answers device_path s w found (with_framework_apk_status o t device_path) tt
        (rw (with_framework_apk_status, done) refl)

  skip_file :
      (nf : NormalizedDeviceFile) (w : World)
      → (not t.try_vdex && is_vdex nf.file_type) ≡ false
      → IsDone nf.device_path w
      → do_decompile_normalized_file o t nf w ≡ (ok true, called w)
  unfolding do_decompile_normalized_file
  skip_file nf w kind (s, found, done) = rw kind (
      bound_skip o answers nf.device_path s w found (with_file_status o t nf) true
        (rw (with_file_status, done) refl))

  -- The answer yes leaves a row that says so.
  attempt-IsDone :
      (device_path : DevicePath) (computed : Text) (w v : World) (r : PullResult Bool × World)
      → ((row_of o device_path w.statuses).decompiled ≡ false
          → r.1.statuses
            ≡ update_rows
                (attempted_status
                  (with_host_path computed (row_of o device_path w.statuses))
                  (is_ok_true r.0))
                (rows_with o device_path w.statuses))
      → (IsDone device_path w → r ≡ (ok true, called w))
      → r ≡ (ok true, v)
      → IsDone device_path v
  attempt-IsDone device_path computed w v r attempted skipped e =
      let s = row_of o device_path w.statuses in
      let rows = rows_with o device_path w.statuses in
      elim (Bool-cases s.decompiled) [
        | inl d ↦
            let (s', found, done) = row_of-IsDone o device_path w d in
            let same_world =
              ap (λ (x : PullResult Bool × World). x.1.statuses)
                (sym e ∙ skipped (row_of-IsDone o device_path w d)) in
            (s', ap (find_row device_path) same_world ∙ found, done)
        | inr new ↦ update_rows-IsDone o device_path computed w v (
            subst
              (λ (x : PullResult Bool × World).
                x.1.statuses
                ≡ update_rows (attempted_status (with_host_path computed s) (is_ok_true x.0)) rows)
              e (attempted new))
      ]

-- A success is final, where the database answers: once the call for an APK, or for another framework file
-- that is no VDex file to be left out, has said yes, whether it did the work or found it done, each
-- further call for that path, as an APK, as a framework APK or as another file, only asks for the row: no
-- file is pulled, no tool is run, no event is fired and no row changes.
pub decompiled_once :
    (o : Outside)
    → ((n : ℕ) → o.db_fails n ≡ none)
    → (t : Pull) (nf : NormalizedDeviceFile) (w v : World)
    → (not t.try_vdex && is_vdex nf.file_type) ≡ false
    → (pull_and_decompile_apk o t nf.device_path w ≡ (ok true, v))
      ⊎ (do_decompile_normalized_file o t nf w ≡ (ok true, v))
    → (pull_and_decompile_apk o t nf.device_path v ≡ (ok true, called v))
      × (pull_and_decompile_framework_apk o t nf.device_path v ≡ (ok tt, called v))
      × (do_decompile_normalized_file o t nf v ≡ (ok true, called v))
decompiled_once o answers t nf w v kind (inl e) =
    let done =
      attempt-IsDone o answers t nf.device_path (join t.apks_dir nf.device_path.squashed_path) w v
        (pull_and_decompile_apk o t nf.device_path w) (apk_rows o answers t nf.device_path w)
        (skip_apk o answers t nf.device_path w) e in
    (
      skip_apk o answers t nf.device_path v done,
      skip_framework_apk o answers t nf.device_path v done,
      skip_file o answers t nf v kind done,
    )
decompiled_once o answers t nf w v kind (inr e) =
    let done =
      attempt-IsDone o answers t nf.device_path (join t.frameworks_dir (local_fs_name nf)) w v
        (do_decompile_normalized_file o t nf w) (file_rows o answers t nf w kind)
        (skip_file o answers t nf w kind) e in
    (
      skip_apk o answers t nf.device_path v done,
      skip_framework_apk o answers t nf.device_path v done,
      skip_file o answers t nf v kind done,
    )
