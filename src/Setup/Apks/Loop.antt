-- ===== src/Setup/Apks/Loop.antt =====
-- The loop over the APKs of a directory.
use dtu.Prelude.{
  ℕ, ◌+◌, ◌≡◌, ap, ◌∙◌, false, some, List, [], ◌∷◌, ◌++◌, arith, length, retain, Text,
}
use dtu.DevicePath.{DevicePath, from_path, from_squashed}
use dtu.Setup.Rows.{ApkIdentifier, start_adding_apk, done_adding_apk}
use dtu.Setup.Exec.{SetupResult, ok, World, Outside, pure, continue, cancel_check}
use dtu.Setup.Apks.{
  DirEntry, SetupHelper, do_apk, add_apk_file, add_apk_loop, add_apk_files, list_priv_apps, lift,
}
use dtu.Setup.Apks.Runs.{reported-ignored}

-- Every entry has a file name that is text.
abbrev pub AreNamed : List DirEntry → Type 0
AreNamed [] = Unit {0}
AreNamed (f ∷ files) = ((name : Text) × (f.file_name ≡ some name)) × AreNamed files

module _ (o : Outside) (helper : SetupHelper) (never : (n : ℕ) → o.cancel n ≡ false) (dir : Text)
    (priv : List Text) (dir_id : ℕ) where
  add_apk_file_succeeds :
      (apk_id : ℕ) (f : DirEntry) (name : Text) (w : World)
      → f.file_name ≡ some name
      → (w' : World) × (add_apk_file o helper dir priv dir_id apk_id f w ≡ (ok tt, w'))
  unfolding add_apk_file cancel_check from_path
  add_apk_file_succeeds apk_id f name w named =
      let identifier : ApkIdentifier = record { apk_id = apk_id; dir_id = dir_id } in
      let path : DevicePath = from_squashed name in
      let before : World = record w {
        checks = w.checks + 1;
        events = w.events ++ start_adding_apk path identifier ∷ [];
      } in
      rw (never w.checks, named)
        (reported-ignored o helper (done_adding_apk identifier)
          (do_apk o helper dir path identifier priv before))

  add_apk_loop_succeeds :
      (files : List DirEntry) (apk_id : ℕ) (w : World)
      → AreNamed files
      → (w' : World) × (add_apk_loop o helper dir priv dir_id apk_id files w
          ≡ (ok (apk_id + length files), w'))
  unfolding add_apk_loop
  add_apk_loop_succeeds [] apk_id w named =
      (w, ap (λ (n : ℕ). let r : SetupResult ℕ × World = (ok n, w) in r) (omega arith))
  add_apk_loop_succeeds (f ∷ files) apk_id w ((name, e), named) =
      let (v, first) = add_apk_file_succeeds apk_id f name w e in
      let (w', rest) = add_apk_loop_succeeds files (apk_id + 1) v named in
      (
        w',
        ap
              (λ (r : SetupResult (Unit {0}) × World).
                continue r (λ _. add_apk_loop o helper dir priv dir_id (apk_id + 1) files))
              first
            ∙ rest
            ∙ ap (λ (n : ℕ). let r : SetupResult ℕ × World = (ok n, w') in r) (omega arith),
      )

-- Where the run is not cancelled, the device lists its packages, and every directory has a name, the
-- loop goes through all the APKs, whatever becomes of each, and returns the number behind the last.
pub add_apk_files_succeeds :
    (o : Outside) (helper : SetupHelper) (dir : Text) (files : List DirEntry) (packages : List Text)
    (dir_id last_apk_id : ℕ) (w : World)
    → ((n : ℕ) → o.cancel n ≡ false)
    → helper.list_packages ≡ ok packages
    → AreNamed files
    → (w' : World) × (add_apk_files o helper dir files dir_id last_apk_id w
        ≡ (ok (last_apk_id + length files), w'))
unfolding add_apk_files list_priv_apps
add_apk_files_succeeds o helper dir files packages dir_id last_apk_id w never listed named =
    let priv : List Text = retain helper.matches_priv_app packages in
    let (w', done) =
      add_apk_loop_succeeds o helper never dir priv dir_id files last_apk_id w named in
    (
      w',
      ap
            (λ (r : SetupResult (List Text)).
              continue (continue (lift r w) (λ paths. pure (retain helper.matches_priv_app paths)))
                (λ apps. add_apk_loop o helper dir apps dir_id last_apk_id files))
            listed
          ∙ done,
    )
