-- ===== src/Setup/Written.antt =====
-- What an action of the setup writes where it succeeds: rows, that depend on those there, events and
-- checks of the cancel flag. The rules follow the actions' form.
use dtu.Prelude.{
  ℕ, ◌+◌, ◌≡◌, refl, sym, ap, ◌∙◌, inl, inr, Option, none, some, List, [], ◌∷◌, ◌++◌, append-nil,
  append_assoc, arith, Option-cases,
}
use dtu.Diff.Database.{DbError, unique_violation}
use dtu.Setup.Rows.{Row, SetupEvent, db}
use dtu.Setup.Exec.{
  SetupResult, ok, err, World, Outside, Setup, pure, ◌>>◌, >>=-eq-ok, on_event, for_each,
  cancel_check, insert, accept_unique, insert_or_ignore,
}

abbrev pub world : List Row → List SetupEvent → ℕ → World
world rows events checks = record { rows = rows; events = events; checks = checks }

abbrev pub after : World → (List Row → List Row) → List SetupEvent → ℕ → World
after w out evs n = world (w.rows ++ out w.rows) (w.events ++ evs) (w.checks + n)

-- The predicate is a record, so that an action's rule is found by its form.
pub record Writes (m : Setup (Unit {0})) (out : List Row → List Row) (evs : List SetupEvent) (n : ℕ)
    : Type 0 where
  pub written : (w w' : World) → m w ≡ (ok tt, w') → w' ≡ after w out evs n

abbrev pub none_out : List Row → List Row
none_out rows = []

abbrev pub then_out : (List Row → List Row) → (List Row → List Row) → List Row → List Row
then_out first second rows = first rows ++ second (rows ++ first rows)

abbrev pub out_each : {A : Type 0} → (A → List Row → List Row) → List A → List Row → List Row
out_each out [] rows = []
out_each out (x ∷ xs) rows = out x rows ++ out_each out xs (rows ++ out x rows)

abbrev pub events_each : {A : Type 0} → (A → List SetupEvent) → List A → List SetupEvent
events_each evs [] = []
events_each evs (x ∷ xs) = evs x ++ events_each evs xs

pub world_eq :
    {r r' : List Row} {e e' : List SetupEvent} {n n' : ℕ}
    → r ≡ r'
    → e ≡ e'
    → n ≡ n'
    → world r e n ≡ world r' e' n'
world_eq pr pe pn = cc

after_then :
    (w : World) (p q : List Row → List Row) (e f : List SetupEvent) (i j : ℕ)
    → after (after w p e i) q f j ≡ after w (then_out p q) (e ++ f) (i + j)
after_then w p q e f i j =
    world_eq (append_assoc w.rows (p w.rows) (q (w.rows ++ p w.rows))) (append_assoc w.events e f)
      (omega arith)

after_nothing : (w : World) → w ≡ after w none_out [] 0
after_nothing w = world_eq (sym (append-nil w.rows)) (sym (append-nil w.events)) (omega arith)

module _ {m k : Setup (Unit {0})} {p q : List Row → List Row} {e f : List SetupEvent} {i j : ℕ}
    (a : Writes m p e i) (b : Writes k q f j) where
  then_written :
      (w w' : World) → (m >> k) w ≡ (ok tt, w') → w' ≡ after w (then_out p q) (e ++ f) (i + j)
  then_written w w' h =
      let (u, v, first, second) = >>=-eq-ok m (λ _. k) w w' h in
      b.written v w' second
      ∙ ap (λ (x : World). after x q f j) (a.written w v first)
      ∙ after_then w p q e f i j

  pub >>-Writes : Writes (m >> k) (then_out p q) (e ++ f) (i + j)
  >>-Writes = record { written = then_written }

pub pure-Writes : Writes (pure tt) none_out [] 0
pure-Writes = record { written = λ w w' h. cc (h, after_nothing w) }

world_of :
    {r : SetupResult (Unit {0})} {w w' : World}
    → ◌≡◌ {A = SetupResult (Unit {0}) × World} (r, w) (ok tt, w')
    → w ≡ w'
world_of h = ap (λ (p : SetupResult (Unit {0}) × World). p.1) h

pub on_event-Writes : (evt : SetupEvent) → Writes (on_event evt) none_out (evt ∷ []) 0
on_event-Writes evt = record { written = go }
  where
    go : (w w' : World) → on_event evt w ≡ (ok tt, w') → w' ≡ after w none_out (evt ∷ []) 0
    go w w' h = sym (world_of h) ∙ world_eq (sym (append-nil w.rows)) refl (omega arith)

module _ {A : Type 0} {step : A → Setup (Unit {0})} {out : A → List Row → List Row}
    {evs : A → List SetupEvent} (each : (x : A) → Writes (step x) (out x) (evs x) 0) where
  for_each_written :
      (xs : List A) (w w' : World)
      → for_each step xs w ≡ (ok tt, w')
      → w' ≡ after w (out_each out xs) (events_each evs xs) 0
  unfolding for_each
  for_each_written [] w w' h = cc (h, after_nothing w)
  for_each_written (x ∷ xs) w w' h =
      let (u, v, first, second) = >>=-eq-ok (step x) (λ _. for_each step xs) w w' h in
      for_each_written xs v w' second
      ∙ ap (λ (y : World). after y (out_each out xs) (events_each evs xs) 0)
          ((each x).written w v first)
      ∙ after_then w (out x) (out_each out xs) (evs x) (events_each evs xs) 0 0

  pub for_each-Writes :
      (xs : List A) → Writes (for_each step xs) (out_each out xs) (events_each evs xs) 0
  for_each-Writes xs = record { written = for_each_written xs }

module _ (o : Outside) where
  cancel_check_written :
      (w w' : World) → cancel_check o w ≡ (ok tt, w') → w' ≡ after w none_out [] 1
  unfolding cancel_check
  cancel_check_written w w' h =
      sym (world_of h) ∙ world_eq (sym (append-nil w.rows)) (sym (append-nil w.events)) refl

  pub cancel_check-Writes : Writes (cancel_check o) none_out [] 1
  cancel_check-Writes = record { written = cancel_check_written }

  insert_written :
      (row : Row) (w w' : World)
      → insert o row w ≡ (ok tt, w')
      → w' ≡ after w (λ rows. row ∷ []) [] 0
  unfolding insert
  insert_written row w w' h = elim (Option-cases (o.refuses w.rows row)) [
    | inl fine ↦
        sym (world_of (rw fine at h)) ∙ world_eq refl (sym (append-nil w.events)) (omega arith)
    | inr (e, no_row) ↦ absurd (ground (arith, no_row, h))
  ]

  pub insert-Writes : (row : Row) → Writes (insert o row) (λ rows. row ∷ []) [] 0
  insert-Writes row = record { written = insert_written row }

  -- The row, if the database does not refuse it.
  abbrev pub taken : Row → Option DbError → List Row
  taken row none = row ∷ []
  taken row (some e) = []

  abbrev pub taken_in : Row → List Row → List Row
  taken_in row rows = taken row (o.refuses rows row)

  ignored : (e : DbError) (w w' : World) → accept_unique o (err (db e), w) ≡ (ok tt, w') → w' ≡ w
  ignored unique_violation w w' h = sym (world_of h)
  ignored _ w w' h = absurd (cc h)

  insert_or_ignore_written :
      (row : Row) (w w' : World)
      → insert_or_ignore o row w ≡ (ok tt, w')
      → w' ≡ after w (taken_in row) [] 0
  unfolding insert_or_ignore
  insert_or_ignore_written row w w' h = elim (Option-cases (o.refuses w.rows row)) [
    | inl fine ↦
        sym (world_of (rw fine at h))
        ∙ rw fine (world_eq refl (sym (append-nil w.events)) (omega arith))
    | inr (e, refused) ↦ ignored e w w' (rw refused at h) ∙ rw refused (after_nothing w)
  ]

  pub insert_or_ignore-Writes : (row : Row) → Writes (insert_or_ignore o row) (taken_in row) [] 0
  insert_or_ignore-Writes row = record { written = insert_or_ignore_written row }
