-- ===== src/Graph/Complete.antt =====
-- An import in which nothing fails loads every CSV file.
use dtu.Prelude.{
  true, append-nil, ℕ, ◌≡◌, refl, ◌∙◌, inl, inr, false, none, some, List, [], ◌∷◌, ◌++◌, arith,
  Bool-cases, Text,
}
use mathlib.Core.Path.{subst}
use dtu.Graph.{
  has_load, strings, same_kind, load_at_once, Csv, all_csvs, in_dir, Load, World, Outside,
  GraphResult, ok, err, called, ◌>>◌, on_event, import_done, import_started, finalizing,
  source_started, should_load_csv, load_staged, load_with_events, stage_rows, loads_at_once,
  load_kind, update_load_status, load_csv, import_csv, check_cancel, do_smalisa_imports, load_begin,
  load_complete, completed, source_is_done, import_smalisa_files, add_directories, finalize,
  with_apks, run_initial_import,
}
use dtu.Graph.Staging.{has_load-append}
use dtu.Graph.Loads.{
  is_source, all_loads-has_load, HasAll, loads_of, all_loads, HasAll-Grows, same_load-same, Does,
  Loads, >>-Loads, on_event-Loads, silent-Loads,
}

module _ (o : Outside) (patient : (n : ℕ) → o.cancel n ≡ false)
    (begins : (n : ℕ) → o.begin_fails n ≡ none) (stages : (n : ℕ) → o.stage_fails n ≡ none)
    (loads : (n : ℕ) → o.load_fails n ≡ none) (stores : (n : ℕ) → o.status_fails n ≡ none)
    (completes : (n : ℕ) → o.complete_fails n ≡ none)
    (finalizes : (n : ℕ) → o.finalize_fails n ≡ none) where
  load_staged-Loads : (l : Load) → Loads [] (load_staged o l)
  load_staged-Loads l = record {
    does = λ w. rw (loads w.calls) (record { succeeds = refl; grows = λ k h. h; has_all = tt });
  }

  load_at_once-Loads : (l : Load) → Loads [] (load_at_once o l)
  load_at_once-Loads l = elim (Bool-cases (same_kind l.1 strings)) [
    | inl e ↦ rw (load_at_once, e) (silent-Loads o.load_fails _ loads (λ w. refl))
    | inr e ↦ rw (load_at_once, e) (silent-Loads o.load_fails _ loads (λ w. refl))
  ]

  load_kind-Loads : (l : Load) → Loads [] (load_kind o l)
  load_kind-Loads l = elim (Bool-cases (loads_at_once l.1)) [
    | inl e ↦ rw (load_kind, e) (load_at_once-Loads l)
    | inr e ↦
        rw (load_kind, e)
          (>>-Loads [] [] (stage_rows o l) (load_staged o l)
            (silent-Loads o.stage_fails _ stages (λ w. refl)) (load_staged-Loads l))
  ]

  update_load_status-Loads : (l : Load) → Loads (l ∷ []) (update_load_status o l)
  update_load_status-Loads l = record {
    does = λ w. rw (stores w.calls) (record {
      succeeds = refl;
      grows = λ k h. has_load-append k w.load_status (l ∷ []) ∙ rw h refl;
      has_all =
          (has_load-append l w.load_status (l ∷ []) ∙ rw (same_load-same l) (ground arith), tt);
    });
  }

  load_csv-Loads : (l : Load) → Loads (l ∷ []) (load_csv o l)
  unfolding load_csv
  load_csv-Loads l =
      >>-Loads [] (l ∷ []) (load_kind o l) (update_load_status o l) (load_kind-Loads l)
        (update_load_status-Loads l)

  load_with_events-Loads : (file : Text) (l : Load) → Loads (l ∷ []) (load_with_events o file l)
  load_with_events-Loads file l =
      >>-Loads (l ∷ []) [] (on_event (import_started file) >> load_csv o l)
        (on_event (import_done file))
        (>>-Loads [] (l ∷ []) (on_event (import_started file)) (load_csv o l)
          (on_event-Loads (import_started file)) (load_csv-Loads l))
        (on_event-Loads (import_done file))

  import_csv-Loads :
      (source dir : Text) (csv : Csv) → Loads ((source, csv) ∷ []) (import_csv o source dir csv)
  unfolding import_csv
  import_csv-Loads source dir csv = record {
    does = λ w. elim (Bool-cases (should_load_csv o (source, csv) w)) [
      | inl e ↦
          let d = (load_with_events-Loads (in_dir csv dir) (source, csv)).does (called w) in
          rw e (record { succeeds = d.succeeds; grows = d.grows; has_all = d.has_all })
      | inr e ↦
          rw e (record { succeeds = refl; grows = λ k h. h; has_all = (ground (arith, e), tt) })
    ];
  }

  check_cancel-Loads : Loads [] (check_cancel o)
  check_cancel-Loads = record {
    does = λ w. rw (patient w.calls) (record { succeeds = refl; grows = λ k h. h; has_all = tt });
  }

  do_smalisa_imports-Loads :
      (source dir : Text) (csvs : List Csv)
      → Loads (loads_of source csvs) (do_smalisa_imports o source dir csvs)
  unfolding do_smalisa_imports
  do_smalisa_imports-Loads source dir [] = record {
    does = λ w. record { succeeds = refl; grows = λ k h. h; has_all = tt };
  }
  do_smalisa_imports-Loads source dir (csv ∷ csvs) =
      >>-Loads ((source, csv) ∷ []) (loads_of source csvs)
        (check_cancel o >> import_csv o source dir csv) (do_smalisa_imports o source dir csvs)
        (>>-Loads [] ((source, csv) ∷ []) (check_cancel o) (import_csv o source dir csv)
          check_cancel-Loads (import_csv-Loads source dir csv))
        (do_smalisa_imports-Loads source dir csvs)

  completed-Does :
      (ks : List Load) (w : World) (r : GraphResult × World)
      → Does ks w r
      → Does ks w (completed o r)
  completed-Does ks w (err e, v) d = cc d.succeeds
  completed-Does ks w (ok, v) d =
      let e =
        (silent-Loads o.complete_fails (λ u. record u { staged = [] }) completes (λ u. refl)).does
          v in
      record {
        succeeds = e.succeeds;
        grows = λ k h. e.grows k (d.grows k h);
        has_all = HasAll-Grows ks v (load_complete o v).1 e.grows d.has_all;
      }

  source_is_done-Does :
      (ks : List Load) (source : Text) (w : World) (r : GraphResult × World)
      → Does ks w r
      → Does ks w (source_is_done o source r)
  source_is_done-Does ks source w (r, v) d = record {
    succeeds = d.succeeds;
    grows = d.grows;
    has_all = HasAll-Grows ks v (source_is_done o source (r, v)).1 (λ k h. h) d.has_all;
  }

  import_smalisa_files-Loads :
      (source dir : Text) → Loads (loads_of source all_csvs) (import_smalisa_files o source dir)
  unfolding import_smalisa_files
  import_smalisa_files-Loads source dir =
      >>-Loads [] (loads_of source all_csvs) (load_begin o >> on_event (source_started source)) _
        (>>-Loads [] [] (load_begin o) (on_event (source_started source))
          (silent-Loads o.begin_fails (λ v. v) begins (λ w. refl))
          (on_event-Loads (source_started source)))
        (record {
          does = λ w. source_is_done-Does (loads_of source all_csvs) source w _ (
              completed-Does (loads_of source all_csvs) w
                (do_smalisa_imports o source dir all_csvs w)
                ((do_smalisa_imports-Loads source dir all_csvs).does w));
        })

  add_directories-Loads :
      (dirs : List (Text × Text)) → Loads (all_loads dirs) (add_directories o dirs)
  unfolding add_directories
  add_directories-Loads [] = record {
    does = λ w. record { succeeds = refl; grows = λ k h. h; has_all = tt };
  }
  add_directories-Loads ((source, dir) ∷ dirs) =
      >>-Loads (loads_of source all_csvs) (all_loads dirs) (import_smalisa_files o source dir)
        (add_directories o dirs) (import_smalisa_files-Loads source dir)
        (add_directories-Loads dirs)

  with_apks-Loads :
      (apks : List (Text × Text)) → Loads ((all_loads apks ++ []) ++ []) (with_apks o (some apks))
  with_apks-Loads apks = record {
    does =
        (>>-Loads (all_loads apks ++ []) [] (add_directories o apks >> on_event finalizing)
          (finalize o)
          (>>-Loads (all_loads apks) [] (add_directories o apks) (on_event finalizing)
            (add_directories-Loads apks) (on_event-Loads finalizing))
          (silent-Loads o.finalize_fails (λ v. v) finalizes (λ w. refl))).does;
  }

-- An import in which nothing fails or is cancelled succeeds, whatever was loaded before and whichever
-- queries fail, and then each of the nine kinds of CSV file is stored as loaded for each source, the
-- framework and the APKs.
pub run_initial_import_complete :
    (o : Outside)
    → ((n : ℕ) → o.cancel n ≡ false)
    → ((n : ℕ) → o.begin_fails n ≡ none)
    → ((n : ℕ) → o.stage_fails n ≡ none)
    → ((n : ℕ) → o.load_fails n ≡ none)
    → ((n : ℕ) → o.status_fails n ≡ none)
    → ((n : ℕ) → o.complete_fails n ≡ none)
    → ((n : ℕ) → o.finalize_fails n ≡ none)
    → (framework : Text × Text) (apks : List (Text × Text)) (w : World) (source : Text) (csv : Csv)
    → is_source source (framework ∷ apks) ≡ true
    → ((run_initial_import o framework (some apks) w).0 ≡ ok)
      × (has_load (source, csv) (run_initial_import o framework (some apks) w).1.load_status ≡ true)
unfolding run_initial_import
run_initial_import_complete o patient begins stages loads stores completes finalizes framework apks
      w source csv is =
    let whole =
      >>-Loads (all_loads (framework ∷ [])) ((all_loads apks ++ []) ++ [])
        (add_directories o (framework ∷ [])) (with_apks o (some apks))
        (add_directories-Loads o patient begins stages loads stores completes finalizes
          (framework ∷ []))
        (with_apks-Loads o patient begins stages loads stores completes finalizes apks) in
    let d = whole.does w in
    let end = (run_initial_import o framework (some apks) w).1 in
    (
      d.succeeds,
      all_loads-has_load (framework ∷ apks) source csv end is (
          subst (λ (ls : List Load). HasAll (loads_of framework.0 all_csvs ++ ls) end)
            (append-nil (all_loads apks ++ []) ∙ append-nil (all_loads apks)) d.has_all),
    )
