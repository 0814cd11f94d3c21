-- ===== src/Setup/Apks/Runs.antt =====
-- The APKs of a directory: each is added as a whole or not at all, and none stops the others.
use dtu.Prelude.{
  ℕ, ◌≡◌, refl, sym, ap, ap₂, ◌∙◌, ◌⊎◌, inl, inr, Bool, true, false, Option, some, List, [], ◌∷◌,
  ◌++◌, append-nil, append_assoc, Option-cases, Text, codes,
}
use dtu.ProjectPath.{join}
use dtu.DevicePath.{DevicePath}
use dtu.Manifest.Items.{Manifest}
use dtu.Setup.Rows.{Row, apk_row, ApkIdentifier, SetupEvent, SetupError, db}
use dtu.Setup.Exec.{
  SetupResult, ok, err, World, Outside, Setup, ◌>>◌, >>=-eq-ok, cancel_check, insert,
  with_transaction, finish,
}
use dtu.Setup.Written.{insert-Writes, cancel_check-Writes}
use dtu.Setup.Manifests.{run_manifest}
use dtu.Setup.Manifests.Written.{component_rows, shared_rows, kept, run_manifest_written}
use dtu.Setup.Apks.{
  SetupHelper, apk_entry, manifest_task, add_apk, insert_apk, run_manifest_file, run_apk, do_apk,
  reported, ignored,
}

module _ (o : Outside) where
  finish_cases :
      {A : Type 0} (before : List Row) (r : SetupResult A × World) (res : SetupResult A)
      (w' : World)
      → finish o before r ≡ (res, w')
      → ((e : SetupError) × (res ≡ err e) × (w'.rows ≡ before))
        ⊎ ((a : A) × (res ≡ ok a) × (r ≡ (ok a, w')))
  finish_cases before (err e, w) res w' h = inl (e, cc h, cc h)
  finish_cases before (ok a, w) res w' h = elim (Option-cases (o.commit_fails w.rows)) [
    | inl fine ↦ inr (a, cc (rw fine at h), cc (rw fine at h))
    | inr (e, failed) ↦ inl (db e, cc (rw failed at h), cc (rw failed at h))
  ]

  -- A transaction that fails leaves the rows as they were; one that succeeds ran its body.
  pub with_transaction_cases :
      {A : Type 0} (body : Setup A) (w w' : World) (res : SetupResult A)
      → with_transaction o body w ≡ (res, w')
      → ((e : SetupError) × (res ≡ err e) × (w'.rows ≡ w.rows))
        ⊎ ((a : A) × (res ≡ ok a) × (body w ≡ (ok a, w')))
  unfolding with_transaction
  with_transaction_cases body w w' res h = finish_cases w.rows (body w) res w' h

module _ (o : Outside) (helper : SetupHelper) where
  module _ (identifier : ApkIdentifier) (out_dir : Text) (device_path : DevicePath)
      (priv : Option (List Text)) where
    -- The rows of an APK and its manifest, on top of those there.
    abbrev pub apk_rows : List Row → Manifest → List Row
    apk_rows rows m =
        let row : Row = apk_row (apk_entry o helper identifier out_dir device_path priv m) in
        let task =
          manifest_task o helper identifier out_dir device_path priv m
            (o.new_id (rows ++ row ∷ [])) in
        row
        ∷ (component_rows o task
            ++ kept o (rows ++ row ∷ component_rows o task) (shared_rows o task))

    add_apk_written :
        (m : Manifest) (w w' : World)
        → add_apk o helper identifier out_dir device_path priv m w ≡ (ok tt, w')
        → w'.rows ≡ w.rows ++ apk_rows w.rows m
    unfolding add_apk insert_apk
    add_apk_written m w w' h =
        let row : Row = apk_row (apk_entry o helper identifier out_dir device_path priv m) in
        let task = manifest_task o helper identifier out_dir device_path priv m in
        let (id, v, added, rest) =
          >>=-eq-ok (insert_apk o helper (apk_entry o helper identifier out_dir device_path priv m))
            (λ id. cancel_check o >> run_manifest o (task id)) w w' h in
        let (u, x, inserted, numbered) =
          >>=-eq-ok (insert o row) (λ _ z. (ok (o.new_id z.rows), z)) w v added in
        let (u', y, checked, ran) =
          >>=-eq-ok (cancel_check o) (λ _. run_manifest o (task id)) v w' rest in
        let x-rows : x.rows ≡ w.rows ++ row ∷ [] =
          ap (λ (z : World). z.rows) ((insert-Writes o row).written w x inserted) in
        let v-eq : x ≡ v = ap (λ (p : SetupResult ℕ × World). p.1) numbered in
        let id-eq : o.new_id x.rows ≡ id = cc numbered in
        let y-rows : y.rows ≡ v.rows ++ [] =
          ap (λ (z : World). z.rows) ((cancel_check-Writes o).written v y checked) in
        let y-eq : y.rows ≡ w.rows ++ row ∷ [] =
          y-rows ∙ append-nil v.rows ∙ ap (λ (z : World). z.rows) (sym v-eq) ∙ x-rows in
        let id-eq' : id ≡ o.new_id (w.rows ++ row ∷ []) = sym id-eq ∙ ap o.new_id x-rows in
        ap (λ (z : World). z.rows) (run_manifest_written o (task id) y w' ran)
        ∙ ap₂
            (λ (n : ℕ) (rows : List Row).
              rows
              ++ (component_rows o (task n)
                  ++ kept o (rows ++ component_rows o (task n)) (shared_rows o (task n))))
            id-eq' y-eq
        ∙ simp (append_assoc) (refl)

  -- Each APK whose manifest is read is added as a whole, its row and every row of its manifest but the
  -- shared ones that the database refuses, or an error is returned and the rows are those before.
  pub do_apk_atomic :
      (dir : Text) (device_path : DevicePath) (identifier : ApkIdentifier) (priv : List Text)
      (m : Manifest) (res : SetupResult (Unit {0})) (w w' : World)
      → helper.manifest_at (join (join dir device_path.squashed_path) (codes "AndroidManifest.xml"))
        ≡ some (some m)
      → do_apk o helper dir device_path identifier priv w ≡ (res, w')
      → ((e : SetupError) × (res ≡ err e) × (w'.rows ≡ w.rows))
        ⊎ ((res ≡ ok tt)
            × (w'.rows
                ≡ w.rows
                  ++ apk_rows identifier
                      (join dir device_path.squashed_path)
                      device_path
                      (some priv)
                      w.rows
                      m))
  unfolding do_apk run_apk
  do_apk_atomic dir device_path identifier priv m res w w' there h =
      let out_dir : Text = join dir device_path.squashed_path in
      elim (with_transaction_cases o (run_apk o helper identifier out_dir device_path (some priv)) w
        w' res h) [
          | inl failed ↦ inl failed
          | inr (a, e, ran) ↦ inr (
            e,
            add_apk_written identifier out_dir device_path (some priv) m w w' (
                sym (
                  ap
                    (λ (f : Option (Option Manifest)).
                      run_manifest_file o helper identifier out_dir device_path (some priv) f w)
                    there)
                ∙ ran),
          )
        ]

  pub reported-ignored :
      {A : Type 0} (evt : Bool → SetupEvent) (r : SetupResult A × World)
      → (w' : World) × (ignored (reported evt r) ≡ (ok tt, w'))
  reported-ignored evt (ok a, w) = (record w { events = w.events ++ evt true ∷ [] }, refl)
  reported-ignored evt (err e, w) = (record w { events = w.events ++ evt false ∷ [] }, refl)
