-- ===== src/Graph/Once.antt =====
-- No CSV file is loaded twice, however often the import is interrupted and run again.
use dtu.Prelude.{ℕ, ◌≡◌, refl, sym, ap, ◌∙◌, false, Option, none, some, List, [], ◌∷◌, Text}
use mathlib.Core.Path.{subst}
use dtu.Diff.Database.{DbError}
use dtu.Graph.{
  SetupEvent, all_csvs, World, Outside, GraphResult, ok, err, Action, called, continue, ◌>>◌,
  executed, on_event, finalizing, source_started, source_done, do_smalisa_imports, load_begin,
  load_complete, completed, import_smalisa_files, add_directories, finalize, with_apks,
  run_initial_import,
}
use dtu.Graph.Staging.{AreDistinct, own, IsStored}
use dtu.Graph.Imports.{AreFresh-clean, imports-IsStored}

pub record IsSynced (w : World) : Type 0 where
  pub all_stored : IsStored w
  pub clean : w.staged ≡ []

-- The end of the loading of a source deletes what is staged.
module _ (o : Outside) (stores : (n : ℕ) → o.status_fails n ≡ none)
    (answers : (n : ℕ) → o.query_fails n ≡ false)
    (completes : (n : ℕ) → o.complete_fails n ≡ none) where
  record Keeps (m : Action) : Type 0 where
    keeps : (w : World) → IsSynced w → IsSynced (m w).1

  continue-IsSynced :
      (r : GraphResult × World) (m : Action) → Keeps m → IsSynced r.1 → IsSynced (continue r m).1
  continue-IsSynced (ok, w) m k h = k.keeps w h
  continue-IsSynced (err e, w) m k h = h

  >>-Keeps : (m n : Action) → Keeps m → Keeps n → Keeps (m >> n)
  >>-Keeps m n a b = record { keeps = λ w h. continue-IsSynced (m w) n b (a.keeps w h) }

  same_tables :
      (w v : World)
      → v.rows ≡ w.rows
      → v.load_status ≡ w.load_status
      → v.staged ≡ w.staged
      → IsSynced w
      → IsSynced v
  same_tables w v rows status staged h = record {
    all_stored = record {
      stored = rows ∙ h.all_stored.stored ∙ ap own (sym status);
      once = subst AreDistinct (sym status) h.all_stored.once;
    };
    clean = staged ∙ h.clean;
  }

  on_event-Keeps : (evt : SetupEvent) → Keeps (on_event evt)
  on_event-Keeps evt = record { keeps = λ w h. same_tables w _ refl refl refl h }

  executed-Keeps : (fails : ℕ → Option DbError) → Keeps (λ w. executed (fails w.calls) (λ v. v) w)
  executed-Keeps fails = record { keeps = λ w h. executed-IsSynced (fails w.calls) w h }
    where
      executed-IsSynced :
          (e : Option DbError) (w : World) → IsSynced w → IsSynced (executed e (λ v. v) w).1
      executed-IsSynced none w h = same_tables w (called w) refl refl refl h
      executed-IsSynced (some e) w h = same_tables w (called w) refl refl refl h

  load_complete-IsSynced : (w : World) → IsStored w → IsSynced (load_complete o w).1
  load_complete-IsSynced w h =
      rw (load_complete, completes w.calls)
        (record { all_stored = record { stored = h.stored; once = h.once }; clean = refl })

  completed-IsSynced : (r : GraphResult × World) → IsStored r.1 → IsSynced (completed o r).1
  completed-IsSynced (ok, w) h = load_complete-IsSynced w h
  completed-IsSynced (err e, w) h = load_complete-IsSynced w h

  import_smalisa_files-Keeps : (source dir : Text) → Keeps (import_smalisa_files o source dir)
  unfolding import_smalisa_files
  import_smalisa_files-Keeps source dir =
      >>-Keeps (load_begin o >> on_event (source_started source)) _
        (>>-Keeps (load_begin o) (on_event (source_started source)) (executed-Keeps o.begin_fails)
          (on_event-Keeps (source_started source)))
        (record {
          keeps = λ w h. (on_event-Keeps (source_done source)).keeps _ (
              completed-IsSynced (do_smalisa_imports o source dir all_csvs w) (
                imports-IsStored o stores answers source dir all_csvs w refl
                  (AreFresh-clean all_csvs w h.clean) h.all_stored));
        })

  add_directories-Keeps : (dirs : List (Text × Text)) → Keeps (add_directories o dirs)
  unfolding add_directories
  add_directories-Keeps [] = record { keeps = λ w h. h }
  add_directories-Keeps ((source, dir) ∷ dirs) =
      >>-Keeps (import_smalisa_files o source dir) (add_directories o dirs)
        (import_smalisa_files-Keeps source dir) (add_directories-Keeps dirs)

  finish-Keeps :
      (dirs : List (Text × Text))
      → Keeps (add_directories o dirs >> on_event finalizing >> finalize o)
  finish-Keeps dirs =
      >>-Keeps (add_directories o dirs >> on_event finalizing) (finalize o)
        (>>-Keeps (add_directories o dirs) (on_event finalizing) (add_directories-Keeps dirs)
          (on_event-Keeps finalizing))
        (executed-Keeps o.finalize_fails)

  with_apks-Keeps : (apks : Option (List (Text × Text))) → Keeps (with_apks o apks)
  with_apks-Keeps none = record { keeps = λ w h. h }
  with_apks-Keeps (some apks) = record { keeps = (finish-Keeps apks).keeps }

-- Whatever fails in an import, and wherever it is cancelled, the rows in the tables are those of the CSV
-- files whose loading is stored, each loaded for its own source, no file was loaded twice, and nothing
-- stays staged: the import can be run again at any time. The queries of what is loaded, the insertions of
-- that, and the deletions of what is staged do not fail.
pub run_initial_import-IsSynced :
    (o : Outside)
    → ((n : ℕ) → o.status_fails n ≡ none)
    → ((n : ℕ) → o.query_fails n ≡ false)
    → ((n : ℕ) → o.complete_fails n ≡ none)
    → (framework : Text × Text) (apks : Option (List (Text × Text))) (w : World) → IsSynced w
    → IsSynced (run_initial_import o framework apks w).1
unfolding run_initial_import
run_initial_import-IsSynced o stores answers completes framework apks w h =
    let whole =
      >>-Keeps o stores answers completes (add_directories o (framework ∷ [])) (with_apks o apks)
        (add_directories-Keeps o stores answers completes (framework ∷ []))
        (with_apks-Keeps o stores answers completes apks) in
    whole.keeps w h
