-- ===== src/Pull/Status.antt =====
-- The rows of `decompile_status`, over dtu/src/db/meta/db.rs and its models.
use dtu.Prelude.{
  ◌⊎◌, inl, inr, Bool, true, false, not, ◌||◌, Option, none, some, List, [], ◌∷◌, ◌++◌, ◌==◌,
  if◌then◌else◌, Text, same,
}
use dtu.Diff.Database.{DbError, not_found}
use dtu.DevicePath.{DevicePath}
use dtu.Pull.Exec.{DecompileStatus, db_error, ok, err, World, Outside, Action, called}

abbrev pub should_decompile : DecompileStatus → Bool
should_decompile s = not s.decompiled

-- `Path::exists`.
abbrev pub exists : Text → List Text → Bool
exists p [] = false
exists p (f ∷ fs) = same f p || exists p fs

abbrev pub should_pull : List Text → DecompileStatus → Bool
should_pull host_files s = elim s.host_path [ none ↦ true | some p ↦ not (exists p host_files) ]

unfoldable pub find_row : DevicePath → List DecompileStatus → Option DecompileStatus
find_row device_path [] = none
find_row device_path (s ∷ rows) =
    if same s.device_path.raw_path device_path.raw_path then some s else find_row device_path rows

-- `AsChangeset` leaves a column alone whose new value is `None`.
abbrev pub changed_path : Option Text → Option Text → Option Text
changed_path old none = old
changed_path old (some p) = some p

abbrev pub change_row : DecompileStatus → DecompileStatus → DecompileStatus
change_row s row = record row {
  device_path = s.device_path;
  host_path = changed_path row.host_path s.host_path;
  decompiled = s.decompiled;
  decompile_attempts = s.decompile_attempts;
}

unfoldable pub update_rows : DecompileStatus → List DecompileStatus → List DecompileStatus
update_rows s [] = []
update_rows s (row ∷ rows) = (if row.id == s.id then change_row s row else row) ∷ update_rows s rows

abbrev pub new_status : Outside → List DecompileStatus → DevicePath → DecompileStatus
new_status o rows device_path = record {
  id = o.new_id rows;
  device_path = device_path;
  host_path = none;
  decompiled = false;
  decompile_attempts = 0;
}

abbrev pub or_not_found : Option DecompileStatus → DecompileStatus ⊎ DbError
or_not_found none = inr not_found
or_not_found (some s) = inl s

module _ (o : Outside) where
  unfoldable pub update_decompile_status : DecompileStatus → Action (Unit {0})
  unfolding update_rows
  update_decompile_status s w = elim (o.db_fails w.calls) [
    | none ↦ (ok tt, record (called w) { statuses = update_rows s w.statuses })
    | some e ↦ (err (db_error e), called w)
  ]

  unfoldable pub create_new_decompile_status : DevicePath → Action DecompileStatus
  create_new_decompile_status device_path w = elim (o.db_fails w.calls) [
    | none ↦ (
      ok (new_status o w.statuses device_path),
      record (called w) { statuses = w.statuses ++ new_status o w.statuses device_path ∷ [] },
    )
    | some e ↦ (err (db_error e), called w)
  ]

  -- The query for one row.
  abbrev pub get_decompile_status_by_device_path : DevicePath → World → DecompileStatus ⊎ DbError
  get_decompile_status_by_device_path device_path w = elim (o.db_fails w.calls) [
    | none ↦ or_not_found (find_row device_path w.statuses)
    | some e ↦ inr e
  ]

  abbrev pub or_create : DevicePath → DecompileStatus ⊎ DbError → Action DecompileStatus
  or_create device_path (inl s) w = (ok s, w)
  or_create device_path (inr not_found) w = create_new_decompile_status device_path w
  or_create device_path (inr e) w = (err (db_error e), w)

  unfoldable pub get_path_decompile_status : DevicePath → Action DecompileStatus
  unfolding find_row create_new_decompile_status
  get_path_decompile_status device_path w =
      or_create device_path (get_decompile_status_by_device_path device_path w) (called w)
