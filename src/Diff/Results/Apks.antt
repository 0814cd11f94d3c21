-- ===== src/Diff/Results/Apks.antt =====
-- The comparison of APKs: a run that succeeds, and one that a refused row ends.
use dtu.Prelude.{ℕ, ◌≡◌, refl, ◌∙◌, List, [], ◌∷◌, ◌++◌, length}
use dtu.Diff.Rows.{Apk}
use dtu.Diff.Inserts
use dtu.Diff.Database
use dtu.Diff.Database.{DbError, ApkTableLaws}
use dtu.Diff.Exec.{World, ok, err, db}
use dtu.Diff.Components.{DiffTask, diff_apks, get_diffable_apks}
use dtu.Diff.Kind.{insert_rows, undone, finished, stopped}
use dtu.Diff.Kind.Resume.{AreApart, run_kind_complete, run_kind_resume}
use dtu.Diff.Kinds.{apk_kind, diff_apks-kind}

module _ {S : Type 0} (t : DiffTask S) where
  -- Where the queries succeed, and the table keeps its laws and takes the rows, comparing the APKs
  -- stores the row of each that has no diff for the source, in order, fires the event of each
  -- between the first and the last event, and succeeds; then none is left, so that another run
  -- stores nothing.
  pub diff_apks_complete :
      (w : World S) (lst everything : List Apk) (ids : List ℕ) (s : S)
      → ApkTableLaws t.database
      → t.diff_db.get_apks ≡ Database.ok lst
      → (t.database.reads w.state).get_apks ≡ Database.ok everything
      → (t.database.reads w.state).get_apk_diffs_by_diff_id t.source.id ≡ Database.ok ids
      → insert_rows (apk_kind t lst) (undone (apk_kind t lst) ids everything) w.state
        ≡ Database.ok s
      → (diff_apks t w ≡ (
        ok tt,
        finished
            (apk_kind t lst)
            Inserts.apks_started
            Inserts.apks_ended
            w
            (undone (apk_kind t lst) ids everything)
            s,
      ))
        × (get_diffable_apks t (
              finished
                (apk_kind t lst)
                Inserts.apks_started
                Inserts.apks_ended
                w
                (undone (apk_kind t lst) ids everything)
                s)
            ≡ (
              ok [],
              finished
                  (apk_kind t lst)
                  Inserts.apks_started
                  Inserts.apks_ended
                  w
                  (undone (apk_kind t lst) ids everything)
                  s,
            ))
  unfolding get_diffable_apks
  diff_apks_complete w lst everything ids s laws hl ha hd hi =
      let (ran, left) =
        run_kind_complete (apk_kind t lst) t.source.id laws (λ x. refl) (λ x. refl)
          Inserts.apks_started Inserts.apks_ended w everything ids s refl ha hd hi in
      (diff_apks-kind t w lst everything ids hl ha hd ∙ ran, left)

  -- Where the queries succeed, and the table keeps its laws but refuses a row, comparing the APKs
  -- ends with that error. What was stored and fired before it stays, and the next run takes up at
  -- the refused item. The numbers of the items before it differ from those of the rest.
  pub diff_apks_resume :
      (w : World S) (lst everything xs ys : List Apk) (x : Apk) (ids : List ℕ) (s : S) (e : DbError)
      → ApkTableLaws t.database
      → t.diff_db.get_apks ≡ Database.ok lst
      → (t.database.reads w.state).get_apks ≡ Database.ok everything
      → (t.database.reads w.state).get_apk_diffs_by_diff_id t.source.id ≡ Database.ok ids
      → undone (apk_kind t lst) ids everything ≡ xs ++ x ∷ ys
      → AreApart (λ d. d.id) xs (x ∷ ys)
      → insert_rows (apk_kind t lst) xs w.state ≡ Database.ok s
      → t.database.add_apk_diff ((apk_kind t lst).row x) s ≡ Database.err e
      → (diff_apks t w ≡ (
        err (db e),
        stopped (apk_kind t lst) Inserts.apks_started (length (xs ++ x ∷ ys)) w xs s,
      ))
        × (get_diffable_apks t
              (stopped (apk_kind t lst) Inserts.apks_started (length (xs ++ x ∷ ys)) w xs s)
            ≡ (
              ok (x ∷ ys),
              stopped (apk_kind t lst) Inserts.apks_started (length (xs ++ x ∷ ys)) w xs s,
            ))
  unfolding get_diffable_apks
  diff_apks_resume w lst everything xs ys x ids s e laws hl ha hd hu hp hi hx =
      let (ran, left) =
        run_kind_resume (apk_kind t lst) t.source.id laws (λ x. refl) (λ x. refl)
          Inserts.apks_started Inserts.apks_ended w everything ids xs ys x s e refl ha hd hu hp hi
          hx in
      (diff_apks-kind t w lst everything ids hl ha hd ∙ ran, left)
