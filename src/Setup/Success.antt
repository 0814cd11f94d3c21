-- ===== src/Setup/Success.antt =====
-- Actions of the setup that cannot fail.
use dtu.Prelude.{ℕ, ◌+◌, ◌≡◌, refl, ap, ◌∙◌, ◌⊎◌, inl, inr, false, none, some, List, [], ◌∷◌, ◌++◌}
use dtu.Diff.Database.{unique_violation}
use dtu.Setup.Rows.{Row, SetupEvent}
use dtu.Setup.Exec.{
  SetupResult, ok, World, Outside, Setup, pure, continue, ◌>>◌, on_event, for_each, cancel_check,
  insert, insert_or_ignore,
}

pub record Succeeds (m : Setup (Unit {0})) : Type 0 where
  pub succeeded : (w : World) → (w' : World) × (m w ≡ (ok tt, w'))

pub pure-Succeeds : Succeeds (pure tt)
pure-Succeeds = record { succeeded = λ w. (w, refl) }

pub on_event-Succeeds : (evt : SetupEvent) → Succeeds (on_event evt)
on_event-Succeeds evt = record {
  succeeded = λ w. (record w { events = w.events ++ evt ∷ [] }, refl);
}

module _ {m k : Setup (Unit {0})} (a : Succeeds m) (b : Succeeds k) where
  then_succeeded : (w : World) → (w' : World) × ((m >> k) w ≡ (ok tt, w'))
  then_succeeded w =
      let (v, first) = a.succeeded w in
      let (w', second) = b.succeeded v in
      (w', ap (λ (r : SetupResult (Unit {0}) × World). continue r (λ _. k)) first ∙ second)

  pub >>-Succeeds : Succeeds (m >> k)
  >>-Succeeds = record { succeeded = then_succeeded }

module _ {A : Type 0} {step : A → Setup (Unit {0})} (each : (x : A) → Succeeds (step x)) where
  for_each_succeeded : (xs : List A) (w : World) → (w' : World) × (for_each step xs w ≡ (ok tt, w'))
  unfolding for_each
  for_each_succeeded [] w = (w, refl)
  for_each_succeeded (x ∷ xs) w =
      let (v, first) = (each x).succeeded w in
      let (w', second) = for_each_succeeded xs v in
      (
        w',
        ap (λ (r : SetupResult (Unit {0}) × World). continue r (λ _. for_each step xs)) first
            ∙ second,
      )

  pub for_each-Succeeds : (xs : List A) → Succeeds (for_each step xs)
  for_each-Succeeds xs = record { succeeded = for_each_succeeded xs }

module _ (o : Outside) where
  pub cancel_check-Succeeds : ((n : ℕ) → o.cancel n ≡ false) → Succeeds (cancel_check o)
  unfolding cancel_check
  cancel_check-Succeeds never = record {
    succeeded = λ w. (record w { checks = w.checks + 1 }, rw (never w.checks) refl);
  }

  pub insert-Succeeds :
      (row : Row) → ((rows : List Row) → o.refuses rows row ≡ none) → Succeeds (insert o row)
  unfolding insert
  insert-Succeeds row takes = record {
    succeeded = λ w. (record w { rows = w.rows ++ row ∷ [] }, rw (takes w.rows) refl);
  }

  module _ (row : Row)
      (takes : (rows : List Row)
        → (o.refuses rows row ≡ none) ⊎ (o.refuses rows row ≡ some unique_violation)) where
    insert_or_ignore_succeeded :
        (w : World) → (w' : World) × (insert_or_ignore o row w ≡ (ok tt, w'))
    unfolding insert_or_ignore
    insert_or_ignore_succeeded w = elim (takes w.rows) [
      | inl fine ↦ (record w { rows = w.rows ++ row ∷ [] }, rw fine refl)
      | inr there ↦ (w, rw there refl)
    ]

    pub insert_or_ignore-Succeeds : Succeeds (insert_or_ignore o row)
    insert_or_ignore-Succeeds = record { succeeded = insert_or_ignore_succeeded }
