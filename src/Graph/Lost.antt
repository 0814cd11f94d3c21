-- ===== src/Graph/Lost.antt =====
-- What becomes of a CSV file whose load status cannot be stored.
use dtu.Prelude.{◌≡◌, refl, sym, false, ap, ◌∙◌, none, some, List, [], ◌∷◌, ◌++◌, Text}
use mathlib.Core.Path.{subst}
use dtu.Diff.Database.{DbError}
use dtu.Graph.{
  same_kind, strings, database, Load, World, Outside, GraphResult, ok, err, called, continue,
  of_kind, load_kind, update_load_status, load_csv, load_complete,
}
use dtu.Graph.Staging.{LoadOutcome, load_kind_outcome}

-- The state behind the end of a loading.
abbrev pub cleaned : World → World
cleaned w = record (called w) { staged = [] }

-- The loading of a file is not all or nothing: if its rows are in the tables and only its status cannot
-- be stored, the loading fails and the rows stay, also behind the end of the loading, and a next loading
-- that the tables do not refuse puts them there a second time. Nothing of the kind is staged at first, and
-- the file is not the one of strings, which are not inserted twice.
pub load_csv_twice :
    (o : Outside) (l : Load) (w v u : World) (e : DbError)
    → same_kind l.1 strings ≡ false
    → of_kind l.1 w.staged ≡ []
    → load_kind o l w ≡ (ok, v)
    → o.status_fails v.calls ≡ some e
    → o.complete_fails (called v).calls ≡ none
    → load_kind o l (cleaned (called v)) ≡ (ok, u)
    → o.status_fails u.calls ≡ none
    → (load_csv o l w ≡ (err (database e), called v))
      × (load_complete o (called v) ≡ (ok, cleaned (called v)))
      × ((load_csv o l (cleaned (called v))).0 ≡ ok)
      × ((load_csv o l (cleaned (called v))).1.rows ≡ (w.rows ++ (l.0, l) ∷ []) ++ (l.0, l) ∷ [])
unfolding load_csv LoadOutcome
load_csv_twice o l w v u e other fresh first lost ends second kept =
    let once : LoadOutcome l w (ok, v) =
      subst (LoadOutcome l w) first (load_kind_outcome o l w fresh (λ is. cc (sym other ∙ is))) in
    let again : LoadOutcome l (cleaned (called v)) (ok, u) =
      subst (LoadOutcome l (cleaned (called v))) second
        (load_kind_outcome o l (cleaned (called v)) refl (λ is. cc (sym other ∙ is))) in
    let failed : continue (ok, v) (update_load_status o l) ≡ (err (database e), called v) =
      rw (update_load_status, lost) refl in
    let stored : continue (ok, u) (update_load_status o l)
        ≡ (ok, record (called u) { load_status = u.load_status ++ l ∷ [] }) =
      rw (update_load_status, kept) refl in
    let whole =
      ap (λ (r : GraphResult × World). continue r (update_load_status o l)) second ∙ stored in
    (
      ap (λ (r : GraphResult × World). continue r (update_load_status o l)) first ∙ failed,
      rw (load_complete, ends) refl,
      ap (λ (r : GraphResult × World). r.0) whole,
      ap (λ (r : GraphResult × World). r.1.rows) whole
          ∙ again.new_rows
          ∙ ap (λ (rows : List (Text × Load)). rows ++ (l.0, l) ∷ []) once.new_rows,
    )
