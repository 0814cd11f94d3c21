-- ===== src/Diff/Results/Ipc.antt =====
-- The comparison of receivers, services and activities: a run that succeeds, and one that a refused row ends.
use dtu.Prelude.{ℕ, ◌≡◌, refl, ◌∙◌, List, [], ◌∷◌, ◌++◌, length}
use dtu.Diff.Rows.{Receiver, Service, Activity}
use dtu.Diff.Inserts
use dtu.Diff.Database
use dtu.Diff.Database.{DbError, ReceiverTableLaws, ServiceTableLaws, ActivityTableLaws}
use dtu.Diff.Exec.{World, ok, err, db}
use dtu.Diff.Components.{DiffTask}
use dtu.Diff.Task.{
  diff_receivers, diff_services, diff_activities, get_diffable_receivers, get_diffable_services,
  get_diffable_activities,
}
use dtu.Diff.Kind.{insert_rows, undone, finished, stopped}
use dtu.Diff.Kind.Resume.{AreApart, run_kind_complete, run_kind_resume}
use dtu.Diff.Kinds.{
  receiver_kind, service_kind, activity_kind, diff_receivers-kind, diff_services-kind,
  diff_activities-kind,
}

module _ {S : Type 0} (t : DiffTask S) where
  -- Where the queries succeed, and the table keeps its laws and takes the rows, comparing the
  -- receivers stores the row of each that has no diff for the source, in order, fires the event of
  -- each between the first and the last event, and succeeds; then none is left, so that another
  -- run stores nothing.
  pub diff_receivers_complete :
      (w : World S) (lst everything : List Receiver) (ids : List ℕ) (s : S)
      → ReceiverTableLaws t.database
      → t.diff_db.get_receivers ≡ Database.ok lst
      → (t.database.reads w.state).get_receivers ≡ Database.ok everything
      → (t.database.reads w.state).get_receiver_diffs_by_diff_id t.source.id ≡ Database.ok ids
      → insert_rows (receiver_kind t lst) (undone (receiver_kind t lst) ids everything) w.state
        ≡ Database.ok s
      → (diff_receivers t w ≡ (
        ok tt,
        finished
            (receiver_kind t lst)
            Inserts.receivers_started
            Inserts.receivers_ended
            w
            (undone (receiver_kind t lst) ids everything)
            s,
      ))
        × (get_diffable_receivers t (
              finished
                (receiver_kind t lst)
                Inserts.receivers_started
                Inserts.receivers_ended
                w
                (undone (receiver_kind t lst) ids everything)
                s)
            ≡ (
              ok [],
              finished
                  (receiver_kind t lst)
                  Inserts.receivers_started
                  Inserts.receivers_ended
                  w
                  (undone (receiver_kind t lst) ids everything)
                  s,
            ))
  unfolding get_diffable_receivers
  diff_receivers_complete w lst everything ids s laws hl ha hd hi =
      let (ran, left) =
        run_kind_complete (receiver_kind t lst) t.source.id laws (λ x. refl) (λ x. refl)
          Inserts.receivers_started Inserts.receivers_ended w everything ids s refl ha hd hi in
      (diff_receivers-kind t w lst everything ids hl ha hd ∙ ran, left)

  -- Where the queries succeed, and the table keeps its laws but refuses a row, comparing the
  -- receivers ends with that error. What was stored and fired before it stays, and the next run
  -- takes up at the refused item. The numbers of the items before it differ from those of the
  -- rest.
  pub diff_receivers_resume :
      (w : World S) (lst everything xs ys : List Receiver) (x : Receiver) (ids : List ℕ) (s : S)
      (e : DbError)
      → ReceiverTableLaws t.database
      → t.diff_db.get_receivers ≡ Database.ok lst
      → (t.database.reads w.state).get_receivers ≡ Database.ok everything
      → (t.database.reads w.state).get_receiver_diffs_by_diff_id t.source.id ≡ Database.ok ids
      → undone (receiver_kind t lst) ids everything ≡ xs ++ x ∷ ys
      → AreApart (λ d. d.id) xs (x ∷ ys)
      → insert_rows (receiver_kind t lst) xs w.state ≡ Database.ok s
      → t.database.add_receiver_diff ((receiver_kind t lst).row x) s ≡ Database.err e
      → (diff_receivers t w ≡ (
        err (db e),
        stopped (receiver_kind t lst) Inserts.receivers_started (length (xs ++ x ∷ ys)) w xs s,
      ))
        × (get_diffable_receivers t (
              stopped
                (receiver_kind t lst)
                Inserts.receivers_started
                (length (xs ++ x ∷ ys))
                w
                xs
                s)
            ≡ (
              ok (x ∷ ys),
              stopped
                  (receiver_kind t lst)
                  Inserts.receivers_started
                  (length (xs ++ x ∷ ys))
                  w
                  xs
                  s,
            ))
  unfolding get_diffable_receivers
  diff_receivers_resume w lst everything xs ys x ids s e laws hl ha hd hu hp hi hx =
      let (ran, left) =
        run_kind_resume (receiver_kind t lst) t.source.id laws (λ x. refl) (λ x. refl)
          Inserts.receivers_started Inserts.receivers_ended w everything ids xs ys x s e refl ha hd
          hu hp hi hx in
      (diff_receivers-kind t w lst everything ids hl ha hd ∙ ran, left)

  -- Where the queries succeed, and the table keeps its laws and takes the rows, comparing the
  -- services stores the row of each that has no diff for the source, in order, fires the event of
  -- each between the first and the last event, and succeeds; then none is left, so that another
  -- run stores nothing.
  pub diff_services_complete :
      (w : World S) (lst everything : List Service) (ids : List ℕ) (s : S)
      → ServiceTableLaws t.database
      → t.diff_db.get_services ≡ Database.ok lst
      → (t.database.reads w.state).get_services ≡ Database.ok everything
      → (t.database.reads w.state).get_service_diffs_by_diff_id t.source.id ≡ Database.ok ids
      → insert_rows (service_kind t lst) (undone (service_kind t lst) ids everything) w.state
        ≡ Database.ok s
      → (diff_services t w ≡ (
        ok tt,
        finished
            (service_kind t lst)
            Inserts.services_started
            Inserts.services_ended
            w
            (undone (service_kind t lst) ids everything)
            s,
      ))
        × (get_diffable_services t (
              finished
                (service_kind t lst)
                Inserts.services_started
                Inserts.services_ended
                w
                (undone (service_kind t lst) ids everything)
                s)
            ≡ (
              ok [],
              finished
                  (service_kind t lst)
                  Inserts.services_started
                  Inserts.services_ended
                  w
                  (undone (service_kind t lst) ids everything)
                  s,
            ))
  unfolding get_diffable_services
  diff_services_complete w lst everything ids s laws hl ha hd hi =
      let (ran, left) =
        run_kind_complete (service_kind t lst) t.source.id laws (λ x. refl) (λ x. refl)
          Inserts.services_started Inserts.services_ended w everything ids s refl ha hd hi in
      (diff_services-kind t w lst everything ids hl ha hd ∙ ran, left)

  -- Where the queries succeed, and the table keeps its laws and takes the rows, comparing the
  -- activities stores the row of each that has no diff for the source, in order, fires the event
  -- of each between the first and the last event, and succeeds; then none is left, so that another
  -- run stores nothing.
  pub diff_activities_complete :
      (w : World S) (lst everything : List Activity) (ids : List ℕ) (s : S)
      → ActivityTableLaws t.database
      → t.diff_db.get_activities ≡ Database.ok lst
      → (t.database.reads w.state).get_activities ≡ Database.ok everything
      → (t.database.reads w.state).get_activity_diffs_by_diff_id t.source.id ≡ Database.ok ids
      → insert_rows (activity_kind t lst) (undone (activity_kind t lst) ids everything) w.state
        ≡ Database.ok s
      → (diff_activities t w ≡ (
        ok tt,
        finished
            (activity_kind t lst)
            Inserts.activities_started
            Inserts.activities_ended
            w
            (undone (activity_kind t lst) ids everything)
            s,
      ))
        × (get_diffable_activities t (
              finished
                (activity_kind t lst)
                Inserts.activities_started
                Inserts.activities_ended
                w
                (undone (activity_kind t lst) ids everything)
                s)
            ≡ (
              ok [],
              finished
                  (activity_kind t lst)
                  Inserts.activities_started
                  Inserts.activities_ended
                  w
                  (undone (activity_kind t lst) ids everything)
                  s,
            ))
  unfolding get_diffable_activities
  diff_activities_complete w lst everything ids s laws hl ha hd hi =
      let (ran, left) =
        run_kind_complete (activity_kind t lst) t.source.id laws (λ x. refl) (λ x. refl)
          Inserts.activities_started Inserts.activities_ended w everything ids s refl ha hd hi in
      (diff_activities-kind t w lst everything ids hl ha hd ∙ ran, left)
