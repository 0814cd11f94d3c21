-- ===== src/Diff/Kind.antt =====
-- The shape that the comparison of every kind of component has, and what a run of it does: the items
-- that have no diff yet are taken in order, and each gets a row and an event.
pub mod Resume
use dtu.Prelude.{
  ℕ, ◌≡◌, inl, inr, not, List, [], ◌∷◌, ◌++◌, map, append-nil, append_assoc, arith, length, retain,
}
use dtu.Diff.Database
use dtu.Diff.Database.{DbResult, DbError, DbResult-cases, contains_id, TableLaws}
use dtu.Diff.Inserts.{DiffEvent}
use dtu.Diff.Exec.{
  World, Exec, DiffError, DiffResult, db, ok, err, pure, lift, query, trigger, insert, for_each,
  ◌>>=◌, ◌>>◌,
}
use dtu.Diff.Components.{get_diffable}

-- What one kind of component brings: its queries, its insertion, the row and the event of an item.
pub record Kind (S T Ins : Type 0) : Type 0 where
  pub get_id : T → ℕ
  pub get_all : S → DbResult (List T)
  pub get_done : S → DbResult (List ℕ)
  pub add : Ins → S → DbResult S
  pub row : T → Ins
  pub event : T → DiffEvent

module _ {S T Ins : Type 0} (k : Kind S T Ins) where
  abbrev pub diffable : Exec S (List T)
  diffable = get_diffable k.get_id k.get_all k.get_done

  -- The rows of the items are inserted in order, up to the first that the database refuses.
  unfoldable pub insert_rows : List T → S → DbResult S
  insert_rows [] s = Database.ok s
  insert_rows (x ∷ xs) s = elim (k.add (k.row x) s) [
    | Database.ok s' ↦ insert_rows xs s'
    | Database.err e ↦ Database.err e
  ]

  abbrev pub step : T → Exec S (Unit {0})
  step x = insert (k.add (k.row x)) >> trigger (k.event x)

  abbrev pub advanced : World S → S → List T → World S
  advanced w s xs = record w { state = s; events = w.events ++ map k.event xs }

  -- Each row is stored and each event fired, if the database takes the rows.
  pub for_each-step :
      (xs : List T) (w : World S) (s : S)
      → insert_rows xs w.state ≡ Database.ok s
      → for_each step xs w ≡ (ok tt, advanced w s xs)
  unfolding for_each insert_rows
  for_each-step [] w s h = ground (arith, append-nil w.events)
  for_each-step (x ∷ xs) w s h = elim (DbResult-cases (k.add (k.row x) w.state)) [
    | inl (s1, e) ↦ ground (
      arith,
      e,
      for_each-step xs (advanced w s1 (x ∷ [])) s,
      append_assoc w.events (k.event x ∷ []) (map k.event xs),
    )
    | inr (x', e) ↦ ground (arith, e)
  ]

  -- A refused row ends the loop with the error; the rows and events before it stay.
  pub for_each-step_err :
      (xs ys : List T) (x : T) (w : World S) (s : S) (e : DbError)
      → insert_rows xs w.state ≡ Database.ok s
      → k.add (k.row x) s ≡ Database.err e
      → for_each step (xs ++ x ∷ ys) w ≡ (err (db e), advanced w s xs)
  unfolding for_each insert_rows
  for_each-step_err [] ys x w s e h r = ground (arith, append-nil w.events)
  for_each-step_err (z ∷ xs) ys x w s e h r = elim (DbResult-cases (k.add (k.row z) w.state)) [
    | inl (s1, q) ↦ ground (
      arith,
      q,
      for_each-step_err xs ys x (advanced w s1 (z ∷ [])) s e,
      append_assoc w.events (k.event z ∷ []) (map k.event xs),
    )
    | inr (q', q) ↦ ground (arith, q)
  ]

  -- The items with no diff yet.
  abbrev pub undone : List ℕ → List T → List T
  undone ids = retain (λ x. not (contains_id ids (k.get_id x)))

  -- One kind from its first event to its last.
  unfoldable pub run_kind : (ℕ → DiffEvent) → DiffEvent → Exec S (Unit {0})
  run_kind started ended = do
    device ← diffable
    trigger (started (length device))
    for_each step device
    trigger ended

  abbrev pub started_world : (ℕ → DiffEvent) → World S → List T → World S
  started_world started w xs = record w { events = w.events ++ started (length xs) ∷ [] }

  -- The world behind a whole run: the rows of the items, and the events from the first to the last.
  abbrev pub finished : (ℕ → DiffEvent) → DiffEvent → World S → List T → S → World S
  finished started ended w xs s = record w {
    state = s;
    events = w.events ++ started (length xs) ∷ (map k.event xs ++ ended ∷ []);
  }

  -- The world behind a run that ended at the item after `xs`, of `count` in all.
  abbrev pub stopped : (ℕ → DiffEvent) → ℕ → World S → List T → S → World S
  stopped started count w xs s = record w {
    state = s;
    events = w.events ++ started count ∷ map k.event xs;
  }

  pub run_kind-ok :
      (started : ℕ → DiffEvent) (ended : DiffEvent) (w : World S) (everything : List T)
      (ids : List ℕ) (s : S)
      → k.get_all w.state ≡ Database.ok everything
      → k.get_done w.state ≡ Database.ok ids
      → insert_rows (undone ids everything) w.state ≡ Database.ok s
      → run_kind started ended w ≡ (
        ok tt,
        record w {
          state = s;
          events =
              w.events
              ++ started (length (undone ids everything))
                ∷ (map k.event (undone ids everything) ++ ended ∷ []);
        },
      )
  unfolding run_kind get_diffable
  run_kind-ok started ended w everything ids s ha hd hi =
      let xs = undone ids everything in
      ground (
        arith,
        ha,
        hd,
        for_each-step xs (started_world started w xs) s hi,
        append_assoc w.events (started (length xs) ∷ []) (map k.event xs),
        append_assoc w.events (started (length xs) ∷ map k.event xs) (ended ∷ []),
      )

  -- A row that is refused ends the kind; the items before it have their rows and events.
  pub run_kind-err :
      (started : ℕ → DiffEvent) (ended : DiffEvent) (w : World S) (everything : List T)
      (ids : List ℕ) (xs ys : List T) (x : T) (s : S) (e : DbError)
      → k.get_all w.state ≡ Database.ok everything
      → k.get_done w.state ≡ Database.ok ids
      → undone ids everything ≡ xs ++ x ∷ ys
      → insert_rows xs w.state ≡ Database.ok s
      → k.add (k.row x) s ≡ Database.err e
      → run_kind started ended w ≡ (
        err (db e),
        record w {
          state = s;
          events = w.events ++ started (length (xs ++ x ∷ ys)) ∷ map k.event xs;
        },
      )
  unfolding run_kind get_diffable
  run_kind-err started ended w everything ids xs ys x s e ha hd hu hi hx = ground (
    arith,
    ha,
    hd,
    hu,
    for_each-step_err xs ys x (started_world started w (xs ++ x ∷ ys)) s e hi hx,
    append_assoc w.events (started (length (xs ++ x ∷ ys)) ∷ []) (map k.event xs),
  )
