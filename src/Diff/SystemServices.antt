-- ===== src/Diff/SystemServices.antt =====
-- `SystemServiceDiffTask`: the comparison of one system service and its methods.
use dtu.Prelude.{
  Bool, true, false, Option, none, some, List, [], ◌∷◌, ◌++◌, if◌then◌else◌, Text, same,
}
use dtu.UnknownBool.{UnknownBool, ub_unknown, ub_false, from_bool}
use dtu.Diff.Rows.{SystemService, SystemServiceMethod, DiffSource}
use dtu.Diff.Inserts.{InsertSystemServiceDiff, InsertSystemServiceMethodDiff, system_service}
use dtu.Diff.Database
use dtu.Diff.Database.{DbResult, DbError, Reads, DeviceDatabase, not_found}
use dtu.Diff.Exec.{Exec, raise, lift, trigger, query, insert, for_each, db, ◌>>=◌, ◌>>◌}

pub record SystemServiceDiffTask (S : Type 0) : Type 0 where
  pub source : DiffSource
  pub database : DeviceDatabase S
  pub diff_db : Reads
  pub system_service : SystemService

-- `signature.as_ref().map(|s| s.as_str()).unwrap_or("")`
abbrev pub or_empty : Option Text → Text
or_empty none = []
or_empty (some s) = s

-- The closure `get_method_def`.
unfoldable pub get_method_def : SystemServiceMethod → Text
get_method_def m = m.name ++ (or_empty m.signature ++ or_empty m.return_type)

-- A hash map that was extended with the values under their keys, in order: of several values with one
-- key the last is found.
unfoldable pub find_last {ℓ} : {A : Type ℓ} → (A → Bool) → List A → Option A
find_last p [] = none
find_last p (x ∷ xs) = elim (find_last p xs) [
  | some y ↦ some y
  | none ↦ if p x then some x else none
]

-- The device method's hash is held against the other method's signature, as in the source.
unfoldable pub hash_matches : SystemServiceMethod → SystemServiceMethod → UnknownBool
hash_matches device_method diff_method = elim device_method.smalisa_hash [
  | none ↦ ub_unknown
  | some dev ↦ elim diff_method.signature [
    | none ↦ ub_unknown
    | some diff ↦ from_bool (same dev diff)
  ]
]

module _ {S : Type 0} (t : SystemServiceDiffTask S) where
  -- The rows that the task inserts for a method, where the other database has none and where it has one.
  abbrev pub method_not_in_diff : SystemServiceMethod → InsertSystemServiceMethodDiff
  method_not_in_diff m = record {
    method = m.id;
    diff_source = t.source.id;
    exists_in_diff = false;
    hash_matches_diff = ub_false;
  }

  unfoldable pub add_method_not_in_diff : SystemServiceMethod → Exec S (Unit {0})
  add_method_not_in_diff m =
      insert (t.database.add_system_service_method_diff (method_not_in_diff m))

  update_service_methods_not_in_diff : List SystemServiceMethod → Exec S (Unit {0})
  update_service_methods_not_in_diff device_methods = for_each add_method_not_in_diff device_methods

  unfoldable pub update_method_diff :
      SystemServiceMethod → Option SystemServiceMethod → Exec S (Unit {0})
  unfolding add_method_not_in_diff
  update_method_diff device_method none = add_method_not_in_diff device_method
  update_method_diff device_method (some m) = insert (
      t.database.add_system_service_method_diff (record {
        method = device_method.id;
        diff_source = t.source.id;
        exists_in_diff = true;
        hash_matches_diff = hash_matches device_method m;
      }))

  do_service_methods_diff : List SystemServiceMethod → List SystemServiceMethod → Exec S (Unit {0})
  unfolding update_method_diff
  do_service_methods_diff device_methods aosp_methods =
      for_each
        (λ m.
          update_method_diff m
            (find_last (λ a. same (get_method_def a) (get_method_def m)) aosp_methods))
        device_methods

  abbrev service_entry : Bool → InsertSystemServiceDiff
  service_entry exists = record {
    system_service = t.system_service.id;
    diff_source = t.source.id;
    exists_in_diff = exists;
  }

  trigger_service : InsertSystemServiceDiff → Exec S (Unit {0})
  trigger_service diff =
      trigger (system_service t.system_service.id t.system_service.name diff.exists_in_diff)

  device_methods_of : Exec S (List SystemServiceMethod)
  device_methods_of =
      query (λ s. (t.database.reads s).get_system_service_methods_by_service_id t.system_service.id)

  do_system_service_diff : SystemService → Exec S (Unit {0})
  unfolding do_service_methods_diff trigger_service device_methods_of
  do_system_service_diff diff = do
    insert (t.database.add_system_service_diff (service_entry true))
    device_methods ← device_methods_of
    diff_methods ← lift (t.diff_db.get_system_service_methods_by_service_id diff.id)
    do_service_methods_diff device_methods diff_methods
    trigger_service (service_entry true)

  do_new_system_service : Exec S (Unit {0})
  unfolding update_service_methods_not_in_diff trigger_service device_methods_of
  do_new_system_service = do
    trigger_service (service_entry false)
    insert (t.database.add_system_service_diff (service_entry false))
    device_methods ← device_methods_of
    update_service_methods_not_in_diff device_methods

  dispatch : DbResult SystemService → Exec S (Unit {0})
  unfolding do_system_service_diff do_new_system_service
  dispatch (Database.err not_found) = do_new_system_service
  dispatch (Database.ok v) = do_system_service_diff v
  dispatch (Database.err e) = raise (db e)

  unfoldable pub run : Exec S (Unit {0})
  unfolding dispatch
  run = dispatch (t.diff_db.get_system_service_by_name t.system_service.name)
