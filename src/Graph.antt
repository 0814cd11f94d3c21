-- ===== src/Graph.antt =====
-- The import of the analysis of smali files into the graph database: dtu/src/db/graph/setup_task.rs, with
-- the loading of dtu/src/db/graph/setup.rs and the files of dtu/src/smalisa_wrapper/gen_csvs.rs. SQLite
-- is not code of the repository: whether a transaction or a query fails is a function of the number of
-- calls made before. The table of the sources and what the SQL statements join are not modelled.
pub mod Staging
pub mod Imports
pub mod Once
pub mod Lost
pub mod Loads
pub mod Complete
mod Tests
use dtu.Prelude.{
  ℕ, ◌+◌, Bool, true, false, not, ◌&&◌, ◌||◌, Option, none, some, List, [], ◌∷◌, ◌++◌, ◌==◌,
  if◌then◌else◌, Text, codes, same,
}
use dtu.DevicePath.{os_path_sep_char}
use dtu.Diff.Database.{DbError}

pub data Csv : Type 0 where
  classes methods supers interfaces calls class_fields method_field_access strings method_strings :
      Csv

-- The order of loading.
abbrev pub all_csvs : List Csv
all_csvs =
    classes ∷ supers ∷ interfaces ∷ class_fields ∷ methods ∷ calls ∷ method_field_access ∷ strings
    ∷ method_strings ∷ []

abbrev pub to_kind : Csv → ℕ
to_kind classes = 0
to_kind methods = 1
to_kind supers = 2
to_kind interfaces = 3
to_kind calls = 4
to_kind class_fields = 5
to_kind method_field_access = 6
to_kind strings = 7
to_kind method_strings = 8

abbrev pub file_name : Csv → Text
file_name classes = codes "classes.csv"
file_name methods = codes "methods.csv"
file_name supers = codes "supers.csv"
file_name interfaces = codes "interfaces.csv"
file_name calls = codes "calls.csv"
file_name class_fields = codes "class_fields.csv"
file_name method_field_access = codes "method_field_access.csv"
file_name strings = codes "strings.csv"
file_name method_strings = codes "method_strings.csv"

abbrev pub in_dir : Csv → Text → Text
in_dir csv dir = dir ++ (os_path_sep_char ∷ file_name csv)

pub data SetupEvent : Type 0 where
  wiping finalizing : SetupEvent
  source_started source_done import_started import_done : Text → SetupEvent

-- `SetupError`, without the texts.
pub data GraphError : Type 0 where
  already_setup invalid_source generic cancelled base : GraphError
  database : DbError → GraphError

pub data GraphResult : Type 0 where
  ok : GraphResult
  err : GraphError → GraphResult

-- A CSV file stands as the name of its source and its kind.
abbrev pub Load : Type 0
Load = Text × Csv

-- The rows of the tables, as the files they come from, each beside the source that they were loaded for,
-- the rows of `_load_status`, and the files whose rows are staged in the temporary tables.
pub record World : Type 0 where
  pub rows : List (Text × Load)
  pub load_status : List Load
  pub staged : List Load
  pub events : List SetupEvent
  pub calls : ℕ

pub record Outside : Type 0 where
  pub cancel : ℕ → Bool
  pub begin_fails : ℕ → Option DbError
  pub query_fails : ℕ → Bool
  pub stage_fails : ℕ → Option DbError
  pub load_fails : ℕ → Option DbError
  pub status_fails : ℕ → Option DbError
  pub complete_fails : ℕ → Option DbError
  pub finalize_fails : ℕ → Option DbError

abbrev pub Action : Type 0
Action = World → GraphResult × World

abbrev pub called : World → World
called w = record w { calls = w.calls + 1 }

abbrev pub continue : GraphResult × World → Action → GraphResult × World
continue (ok, w) f = f w
continue (err e, w) f = (err e, w)

infixl 5 ◌>>◌
abbrev pub ◌>>◌ : Action → Action → Action
◌>>◌ m n w = continue (m w) n

abbrev pub of_error : Option DbError → GraphResult
of_error none = ok
of_error (some e) = err (database e)

-- A transaction or statement that fails changes nothing.
abbrev pub executed : Option DbError → (World → World) → Action
executed none change w = (ok, change (called w))
executed (some e) change w = (err (database e), called w)

abbrev pub on_event : SetupEvent → Action
on_event evt w = (ok, record w { events = w.events ++ evt ∷ [] })

abbrev pub same_kind : Csv → Csv → Bool
same_kind c d = to_kind c == to_kind d

abbrev pub same_load : Load → Load → Bool
same_load (s, c) (t, d) = same s t && same_kind c d

abbrev pub has_load : Load → List Load → Bool
has_load l [] = false
has_load l (k ∷ loads) = same_load k l || has_load l loads

-- The kinds whose rows are not staged first.
abbrev pub loads_at_once : Csv → Bool
loads_at_once classes = true
loads_at_once strings = true
loads_at_once methods = false
loads_at_once supers = false
loads_at_once interfaces = false
loads_at_once calls = false
loads_at_once class_fields = false
loads_at_once method_field_access = false
loads_at_once method_strings = false

abbrev pub of_kind : Csv → List Load → List Load
of_kind csv [] = []
of_kind csv (l ∷ loads) = if same_kind l.1 csv then l ∷ of_kind csv loads else of_kind csv loads

-- The rows that loading for a source gives.
abbrev pub loaded_for : Text → List Load → List (Text × Load)
loaded_for source [] = []
loaded_for source (l ∷ loads) = (source, l) ∷ loaded_for source loads

abbrev pub has_row : Load → List (Text × Load) → Bool
has_row l [] = false
has_row l ((source, k) ∷ rows) = (same source l.0 && same_load k l) || has_row l rows

-- `insert_or_ignore_into`, under the table's unique index on the source and the string.
abbrev pub insert_or_ignore : Load → List (Text × Load) → List (Text × Load)
insert_or_ignore l rows = if has_row l rows then rows else rows ++ (l.0, l) ∷ []

module _ (o : Outside) where
  abbrev pub load_rows : Text → List Load → Action
  load_rows source loads w =
      executed (o.load_fails w.calls) (λ v. record v { rows = v.rows ++ loaded_for source loads }) w

  -- Rows that are there are left out.
  abbrev pub load_strings : Load → Action
  load_strings l w =
      executed (o.load_fails w.calls) (λ v. record v { rows = insert_or_ignore l v.rows }) w

  abbrev pub load_at_once : Load → Action
  load_at_once l = if same_kind l.1 strings then load_strings l else load_rows l.0 (l ∷ [])

  abbrev pub stage_rows : Load → Action
  stage_rows l w =
      executed (o.stage_fails w.calls) (λ v. record v { staged = v.staged ++ l ∷ [] }) w

  -- Every row of the temporary table of the kind.
  abbrev pub load_staged : Load → Action
  load_staged (source, csv) w = load_rows source (of_kind csv w.staged) w

  abbrev pub load_kind : Load → Action
  load_kind l = if loads_at_once l.1 then load_at_once l else stage_rows l >> load_staged l

  abbrev pub update_load_status : Load → Action
  update_load_status l w =
      executed (o.status_fails w.calls) (λ v. record v { load_status = v.load_status ++ l ∷ [] }) w

  unfoldable pub load_csv : Load → Action
  load_csv l = load_kind l >> update_load_status l

  -- A query that fails is one that finds no row.
  abbrev pub should_load_csv : Load → World → Bool
  should_load_csv l w = o.query_fails w.calls || not (has_load l w.load_status)

  abbrev pub load_with_events : Text → Load → Action
  load_with_events csv_file l =
      on_event (import_started csv_file) >> load_csv l >> on_event (import_done csv_file)

  unfoldable pub import_csv : Text → Text → Csv → Action
  unfolding load_csv
  import_csv source import_dir_name csv w =
      if should_load_csv (source, csv) w
      then load_with_events (in_dir csv import_dir_name) (source, csv) (called w)
      else (ok, called w)

  abbrev pub check_cancel : Action
  check_cancel w = (if o.cancel w.calls then err cancelled else ok, called w)

  unfoldable pub do_smalisa_imports : Text → Text → List Csv → Action
  unfolding import_csv
  do_smalisa_imports source import_dir_name [] w = (ok, w)
  do_smalisa_imports source import_dir_name (csv ∷ csvs) w =
      continue ((check_cancel >> import_csv source import_dir_name csv) w)
        (do_smalisa_imports source import_dir_name csvs)

  abbrev pub load_begin : Action
  load_begin w = executed (o.begin_fails w.calls) (λ v. v) w

  abbrev pub load_complete : Action
  load_complete w = executed (o.complete_fails w.calls) (λ v. record v { staged = [] }) w

  -- The end of the loading after an error forgets its own.
  abbrev pub completed : GraphResult × World → GraphResult × World
  completed (ok, w) = load_complete w
  completed (err e, w) = (err e, (load_complete w).1)

  abbrev pub source_is_done : Text → GraphResult × World → GraphResult × World
  source_is_done source (r, w) = (r, (on_event (source_done source) w).1)

  unfoldable pub import_smalisa_files : Text → Text → Action
  unfolding do_smalisa_imports
  import_smalisa_files source import_dir_name =
      load_begin >> on_event (source_started source) >> λ w.
      source_is_done source (completed (do_smalisa_imports source import_dir_name all_csvs w))

  -- The directories to import, each with its source.
  unfoldable pub add_directories : List (Text × Text) → Action
  unfolding import_smalisa_files
  add_directories [] w = (ok, w)
  add_directories ((source, dir) ∷ dirs) w =
      continue (import_smalisa_files source dir w) (add_directories dirs)

  abbrev pub finalize : Action
  finalize w = executed (o.finalize_fails w.calls) (λ v. v) w

  abbrev pub with_apks : Option (List (Text × Text)) → Action
  with_apks none w = (err base, w)
  with_apks (some apks) w = (add_directories apks >> on_event finalizing >> finalize) w

  -- The framework first, then the APKs, whose directories may not be found.
  unfoldable pub run_initial_import : Text × Text → Option (List (Text × Text)) → Action
  unfolding add_directories
  run_initial_import framework get_apk_smalisa_dirs =
      add_directories (framework ∷ []) >> with_apks get_apk_smalisa_dirs
