-- ===== src/Diff/Results/Named.antt =====
-- The comparison of providers and permissions: a run that succeeds, and one that a refused row ends.
use dtu.Prelude.{ℕ, ◌≡◌, refl, ◌∙◌, List, [], ◌∷◌, ◌++◌, arith, length}
use dtu.Diff.Rows.{Provider, Permission}
use dtu.Diff.Inserts
use dtu.Diff.Database
use dtu.Diff.Database.{DbError, ProviderTableLaws, PermissionTableLaws}
use dtu.Diff.Exec.{World, ok, err, db}
use dtu.Diff.Components.{DiffTask}
use dtu.Diff.Task.{
  diff_providers, diff_permissions, get_diffable_providers, get_diffable_permissions,
  provider_entry, permission_entry,
}
use dtu.Diff.Kind.{insert_rows, undone, finished, stopped}
use dtu.Diff.Kind.Resume.{AreApart, run_kind_complete, run_kind_resume}
use dtu.Diff.Kinds.{provider_kind, permission_kind, diff_providers-kind, diff_permissions-kind}

module _ {S : Type 0} (t : DiffTask S) where
  provider_row_item :
      (lst : List Provider) (x : Provider) → ((provider_kind t lst).row x).provider ≡ x.id
  unfolding provider_entry
  provider_row_item lst x = ground arith

  provider_row_source :
      (lst : List Provider) (x : Provider) → ((provider_kind t lst).row x).diff_source ≡ t.source.id
  unfolding provider_entry
  provider_row_source lst x = ground arith

  -- Where the queries succeed, and the table keeps its laws and takes the rows, comparing the
  -- providers stores the row of each that has no diff for the source, in order, fires the event of
  -- each between the first and the last event, and succeeds; then none is left, so that another
  -- run stores nothing.
  pub diff_providers_complete :
      (w : World S) (lst everything : List Provider) (ids : List ℕ) (s : S)
      → ProviderTableLaws t.database
      → t.diff_db.get_providers ≡ Database.ok lst
      → (t.database.reads w.state).get_providers ≡ Database.ok everything
      → (t.database.reads w.state).get_provider_diffs_by_diff_id t.source.id ≡ Database.ok ids
      → insert_rows (provider_kind t lst) (undone (provider_kind t lst) ids everything) w.state
        ≡ Database.ok s
      → (diff_providers t w ≡ (
        ok tt,
        finished
            (provider_kind t lst)
            Inserts.providers_started
            Inserts.providers_ended
            w
            (undone (provider_kind t lst) ids everything)
            s,
      ))
        × (get_diffable_providers t (
              finished
                (provider_kind t lst)
                Inserts.providers_started
                Inserts.providers_ended
                w
                (undone (provider_kind t lst) ids everything)
                s)
            ≡ (
              ok [],
              finished
                  (provider_kind t lst)
                  Inserts.providers_started
                  Inserts.providers_ended
                  w
                  (undone (provider_kind t lst) ids everything)
                  s,
            ))
  unfolding get_diffable_providers
  diff_providers_complete w lst everything ids s laws hl ha hd hi =
      let (ran, left) =
        run_kind_complete (provider_kind t lst) t.source.id laws (provider_row_item lst)
          (provider_row_source lst) Inserts.providers_started Inserts.providers_ended w everything
          ids s refl ha hd hi in
      (diff_providers-kind t w lst everything ids hl ha hd ∙ ran, left)

  -- Where the queries succeed, and the table keeps its laws but refuses a row, comparing the
  -- providers ends with that error. What was stored and fired before it stays, and the next run
  -- takes up at the refused item. The numbers of the items before it differ from those of the
  -- rest.
  pub diff_providers_resume :
      (w : World S) (lst everything xs ys : List Provider) (x : Provider) (ids : List ℕ) (s : S)
      (e : DbError)
      → ProviderTableLaws t.database
      → t.diff_db.get_providers ≡ Database.ok lst
      → (t.database.reads w.state).get_providers ≡ Database.ok everything
      → (t.database.reads w.state).get_provider_diffs_by_diff_id t.source.id ≡ Database.ok ids
      → undone (provider_kind t lst) ids everything ≡ xs ++ x ∷ ys
      → AreApart (λ d. d.id) xs (x ∷ ys)
      → insert_rows (provider_kind t lst) xs w.state ≡ Database.ok s
      → t.database.add_provider_diff ((provider_kind t lst).row x) s ≡ Database.err e
      → (diff_providers t w ≡ (
        err (db e),
        stopped (provider_kind t lst) Inserts.providers_started (length (xs ++ x ∷ ys)) w xs s,
      ))
        × (get_diffable_providers t (
              stopped
                (provider_kind t lst)
                Inserts.providers_started
                (length (xs ++ x ∷ ys))
                w
                xs
                s)
            ≡ (
              ok (x ∷ ys),
              stopped
                  (provider_kind t lst)
                  Inserts.providers_started
                  (length (xs ++ x ∷ ys))
                  w
                  xs
                  s,
            ))
  unfolding get_diffable_providers
  diff_providers_resume w lst everything xs ys x ids s e laws hl ha hd hu hp hi hx =
      let (ran, left) =
        run_kind_resume (provider_kind t lst) t.source.id laws (provider_row_item lst)
          (provider_row_source lst) Inserts.providers_started Inserts.providers_ended w everything
          ids xs ys x s e refl ha hd hu hp hi hx in
      (diff_providers-kind t w lst everything ids hl ha hd ∙ ran, left)

  permission_row_item :
      (lst : List Permission) (x : Permission) → ((permission_kind t lst).row x).permission ≡ x.id
  unfolding permission_entry
  permission_row_item lst x = ground arith

  permission_row_source :
      (lst : List Permission) (x : Permission)
      → ((permission_kind t lst).row x).diff_source ≡ t.source.id
  unfolding permission_entry
  permission_row_source lst x = ground arith

  -- Where the queries succeed, and the table keeps its laws and takes the rows, comparing the
  -- permissions stores the row of each that has no diff for the source, in order, fires the event
  -- of each between the first and the last event, and succeeds; then none is left, so that another
  -- run stores nothing.
  pub diff_permissions_complete :
      (w : World S) (lst everything : List Permission) (ids : List ℕ) (s : S)
      → PermissionTableLaws t.database
      → t.diff_db.get_permissions ≡ Database.ok lst
      → (t.database.reads w.state).get_permissions ≡ Database.ok everything
      → (t.database.reads w.state).get_permission_diffs_by_diff_id t.source.id ≡ Database.ok ids
      → insert_rows (permission_kind t lst) (undone (permission_kind t lst) ids everything) w.state
        ≡ Database.ok s
      → (diff_permissions t w ≡ (
        ok tt,
        finished
            (permission_kind t lst)
            Inserts.permissions_started
            Inserts.permissions_ended
            w
            (undone (permission_kind t lst) ids everything)
            s,
      ))
        × (get_diffable_permissions t (
              finished
                (permission_kind t lst)
                Inserts.permissions_started
                Inserts.permissions_ended
                w
                (undone (permission_kind t lst) ids everything)
                s)
            ≡ (
              ok [],
              finished
                  (permission_kind t lst)
                  Inserts.permissions_started
                  Inserts.permissions_ended
                  w
                  (undone (permission_kind t lst) ids everything)
                  s,
            ))
  unfolding get_diffable_permissions
  diff_permissions_complete w lst everything ids s laws hl ha hd hi =
      let (ran, left) =
        run_kind_complete (permission_kind t lst) t.source.id laws (permission_row_item lst)
          (permission_row_source lst) Inserts.permissions_started Inserts.permissions_ended w
          everything ids s refl ha hd hi in
      (diff_permissions-kind t w lst everything ids hl ha hd ∙ ran, left)
