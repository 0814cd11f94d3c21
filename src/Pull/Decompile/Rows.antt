-- ===== src/Pull/Decompile/Rows.antt =====
-- The row that a file has, and the actions that leave the rows alone.
use dtu.Prelude.{
  ◌≡◌, refl, ◌∙◌, ◌≢◌, ◌+◌, inl, inr, Bool-cases, retain, same, Bool, true, false, Option, none,
  some, List, [], ◌∷◌, ◌++◌, Text,
}
use dtu.DevicePath.{DevicePath}
use dtu.Pull.Exec.{
  DecompileStatus, PullError, PullResult, ok, err, World, Outside, Action, called, continue, pure,
  decompiling, ◌>>=◌, ◌>>◌, send_event, attempted, decompile_success,
}
use dtu.Pull.Status.{find_row}
use dtu.Pull.Decompile.{
  pull_answer, pull_file, answered, decompiled_by, decompile_apk, pull_first, do_decompile_file,
}

-- The row of a file and the rows with it: a file that has none gets a new one.
abbrev pub or_new : DecompileStatus → Option DecompileStatus → DecompileStatus
or_new fresh none = fresh
or_new fresh (some s) = s

abbrev pub rows_or_new :
    List DecompileStatus → DecompileStatus → Option DecompileStatus → List DecompileStatus
rows_or_new rows fresh none = rows ++ fresh ∷ []
rows_or_new rows fresh (some s) = rows

-- The rows of a path.
abbrev pub rows_of_path : DevicePath → List DecompileStatus → List DecompileStatus
rows_of_path device_path rows = retain (λ s. same s.device_path.raw_path device_path.raw_path) rows

abbrev pub first_of : List DecompileStatus → Option DecompileStatus
first_of [] = none
first_of (s ∷ rows) = some s

abbrev pub fresh_row : Outside → DevicePath → List DecompileStatus → DecompileStatus
fresh_row o device_path rows = record {
  id = o.new_id rows;
  device_path = device_path;
  host_path = none;
  decompiled = false;
  decompile_attempts = 0;
}

-- The first row of the path, or a new one.
abbrev pub row_of : Outside → DevicePath → List DecompileStatus → DecompileStatus
row_of o device_path rows =
    or_new (fresh_row o device_path rows) (first_of (rows_of_path device_path rows))

abbrev pub rows_with : Outside → DevicePath → List DecompileStatus → List DecompileStatus
rows_with o device_path rows =
    rows_or_new rows (fresh_row o device_path rows) (first_of (rows_of_path device_path rows))

pub find_row_lem :
    (device_path : DevicePath) (rows : List DecompileStatus)
    → find_row device_path rows ≡ first_of (rows_of_path device_path rows)
unfolding find_row
find_row_lem device_path [] = refl
find_row_lem device_path (s ∷ rows) =
    elim (Bool-cases (same s.device_path.raw_path device_path.raw_path)) [
      | inl e ↦ rw e refl
      | inr e ↦ rw e (find_row_lem device_path rows)
    ]

-- The row of a file behind an attempt.
abbrev pub known_path : Text → Option Text → Text
known_path computed none = computed
known_path computed (some p) = p

abbrev pub attempt_of : Text → Bool → DecompileStatus → DecompileStatus
attempt_of computed success s = record {
  id = s.id;
  device_path = s.device_path;
  host_path = some (known_path computed s.host_path);
  decompiled = success;
  decompile_attempts = s.decompile_attempts + 1;
}

abbrev pub has_succeeded : PullResult Bool → Bool
has_succeeded (ok success) = success
has_succeeded (err e) = false

-- The rows with this number are this one, and the others are as they were.
abbrev pub IsRecorded : DecompileStatus → List DecompileStatus → List DecompileStatus → Type 0
IsRecorded s [] [] = Unit {0}
IsRecorded s [] (new ∷ rows) = true ≡ false
IsRecorded s (old ∷ rows) [] = true ≡ false
IsRecorded s (old ∷ rows) (new ∷ rows') =
    (old.id ≡ s.id → new ≡ s) × (old.id ≢ s.id → new ≡ old) × IsRecorded s rows rows'

-- Actions that leave the rows of the statuses alone.
pub record KeepsRows {A : Type 0} (m : Action A) : Type 0 where
  pub kept : (w : World) → (m w).1.statuses ≡ w.statuses

module _ {A B : Type 0} where
  continue_kept :
      (r : PullResult A × World) (f : A → Action B) (rows : List DecompileStatus)
      → ((a : A) → KeepsRows (f a))
      → r.1.statuses ≡ rows
      → (continue r f).1.statuses ≡ rows
  continue_kept (ok a, w) f rows h e = (h a).kept w ∙ e
  continue_kept (err x, w) f rows h e = e

  >>=-KeepsRows :
      (m : Action A) (f : A → Action B)
      → KeepsRows m
      → ((a : A) → KeepsRows (f a))
      → KeepsRows (m >>= f)
  >>=-KeepsRows m f k h = record { kept = λ w. continue_kept (m w) f w.statuses h (k.kept w) }

pull_answer_kept :
    (device_path : DevicePath) (host_path : Text) (left : Bool) (e : Option PullError) (w : World)
    → (pull_answer device_path host_path left e w).1.statuses ≡ w.statuses
pull_answer_kept device_path host_path left none w = refl
pull_answer_kept device_path host_path true (some e) w = refl
pull_answer_kept device_path host_path false (some e) w = refl

pub pull_file-KeepsRows :
    (o : Outside) (device_path : DevicePath) (host_path : Text)
    → KeepsRows (pull_file o device_path host_path)
unfolding pull_file
pull_file-KeepsRows o device_path host_path = record {
  kept = λ w.
      pull_answer_kept device_path host_path (o.leaves_file w.calls)
        (o.transfer w.calls device_path host_path) _;
}

pub pull_first-KeepsRows :
    (o : Outside) (b : Bool) (device_path : DevicePath) (host_path : Text)
    → KeepsRows (pull_first o b device_path host_path)
pull_first-KeepsRows o true device_path host_path = pull_file-KeepsRows o device_path host_path
pull_first-KeepsRows o false device_path host_path = record { kept = λ w. refl }

answered-KeepsRows :
    (host_path : Text) (moved : Action (Unit {0})) (r : PullResult Bool)
    → KeepsRows moved
    → KeepsRows (answered host_path moved r)
answered-KeepsRows host_path moved (err e) k = record { kept = λ w. refl }
answered-KeepsRows host_path moved (ok false) k = record { kept = λ w. refl }
answered-KeepsRows host_path moved (ok true) k =
    >>=-KeepsRows (send_event (decompile_success host_path) >> moved) (λ _. pure true)
      (>>=-KeepsRows (send_event (decompile_success host_path)) (λ _. moved)
        (record { kept = λ w. refl }) (λ _. k))
      (λ _. record { kept = λ w. refl })

module _ (o : Outside) where
  attempted-KeepsRows : KeepsRows (attempted o)
  attempted-KeepsRows = record { kept = λ w. refl }

  decompiled_by-KeepsRows :
      (host_path : Text) (moved : Action (Unit {0}))
      → KeepsRows moved
      → KeepsRows (decompiled_by o host_path moved)
  decompiled_by-KeepsRows host_path moved k = record {
    kept =
        λ w. (answered-KeepsRows host_path moved (o.decompile w.calls host_path) k).kept (called w);
  }

  pub decompile_apk-KeepsRows : (host_path : Text) → KeepsRows (decompile_apk o host_path)
  unfolding decompile_apk
  decompile_apk-KeepsRows host_path =
      >>=-KeepsRows (send_event (decompiling host_path))
        (λ _. decompiled_by o host_path (attempted o)) (record { kept = λ w. refl })
        (λ _. decompiled_by-KeepsRows host_path (attempted o) attempted-KeepsRows)

  pub do_decompile_file-KeepsRows :
      (host_path : Text) (device_path : DevicePath) (pull : Bool)
      → KeepsRows (do_decompile_file o host_path device_path pull)
  unfolding do_decompile_file
  do_decompile_file-KeepsRows host_path device_path pull =
      >>=-KeepsRows
        (pull_first o pull device_path host_path
          >> send_event (decompiling host_path)
          >> attempted o)
        (λ _. decompiled_by o host_path (pure tt))
        (>>=-KeepsRows
          (pull_first o pull device_path host_path >> send_event (decompiling host_path))
          (λ _. attempted o)
          (>>=-KeepsRows (pull_first o pull device_path host_path)
            (λ _. send_event (decompiling host_path))
            (pull_first-KeepsRows o pull device_path host_path) (λ _. record { kept = λ w. refl }))
          (λ _. attempted-KeepsRows))
        (λ _. decompiled_by-KeepsRows host_path (pure tt) (record { kept = λ w. refl }))
