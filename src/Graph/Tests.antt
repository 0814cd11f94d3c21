-- ===== src/Graph/Tests.antt =====
-- The theorems at one source.
use dtu.Prelude.{
  same, ◌≡◌, refl, true, false, none, some, [], ◌∷◌, ◌++◌, leb, ◌==◌, if◌then◌else◌, codes,
}
use dtu.Diff.Database.{generic}
use dtu.Graph.{
  method_strings, has_load, supers, Load, World, Outside, ok, err, database, called, load_csv,
  load_kind, load_complete, run_initial_import,
}
use dtu.Graph.Once.{IsSynced, run_initial_import-IsSynced}
use dtu.Graph.Lost.{cleaned, load_csv_twice}
use dtu.Graph.Complete.{run_initial_import_complete}

-- Nothing fails but every query of what is loaded.
abbrev smooth : Outside
smooth = record {
  cancel = λ n. false;
  begin_fails = λ n. none;
  query_fails = λ n. true;
  stage_fails = λ n. none;
  load_fails = λ n. none;
  status_fails = λ n. none;
  complete_fails = λ n. none;
  finalize_fails = λ n. none;
}

-- A file cannot be staged, and the import is cancelled later.
abbrev outside : Outside
outside = record smooth {
  cancel = λ n. leb 30 n;
  query_fails = λ n. false;
  stage_fails = λ n. if n == 7 then some generic else none;
}

-- One status cannot be stored.
abbrev lossy : Outside
lossy = record smooth { status_fails = λ n. if n == 2 then some generic else none }

abbrev empty : World
empty = record { rows = []; load_status = []; staged = []; events = []; calls = 0 }

abbrev load : Load
load = (codes "framework", supers)

abbrev loaded : World
loaded = (load_kind lossy load empty).1

run_initial_import_example :
    IsSynced
      (run_initial_import outside
        (codes "framework", codes "/fw")
        (some ((codes "a.apk", codes "/a") ∷ []))
        empty).1
run_initial_import_example =
    run_initial_import-IsSynced outside (λ n. refl) (λ n. refl) (λ n. refl)
      (codes "framework", codes "/fw") (some ((codes "a.apk", codes "/a") ∷ [])) empty
      (record { all_stored = record { stored = refl; once = tt }; clean = refl })

load_csv_twice_example :
    (load_csv lossy load empty ≡ (err (database generic), called loaded))
    × (load_complete lossy (called loaded) ≡ (ok, cleaned (called loaded)))
    × ((load_csv lossy load (cleaned (called loaded))).0 ≡ ok)
    × ((load_csv lossy load (cleaned (called loaded))).1.rows
        ≡ ([] ++ (codes "framework", load) ∷ []) ++ (codes "framework", load) ∷ [])
load_csv_twice_example =
    load_csv_twice lossy load empty loaded (load_kind lossy load (cleaned (called loaded))).1
      generic refl refl refl refl refl refl refl

run_initial_import_complete_example :
    ((run_initial_import smooth
        (codes "framework", codes "/fw")
        (some ((codes "a.apk", codes "/a") ∷ []))
        empty).0
      ≡ ok)
    × (has_load
          (codes "a.apk", method_strings)
          (run_initial_import smooth
            (codes "framework", codes "/fw")
            (some ((codes "a.apk", codes "/a") ∷ []))
            empty).1.load_status
        ≡ true)
unfolding same
run_initial_import_complete_example =
    run_initial_import_complete smooth (λ n. refl) (λ n. refl) (λ n. refl) (λ n. refl) (λ n. refl)
      (λ n. refl) (λ n. refl) (codes "framework", codes "/fw") ((codes "a.apk", codes "/a") ∷ [])
      empty (codes "a.apk") method_strings refl
