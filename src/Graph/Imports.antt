-- ===== src/Graph/Imports.antt =====
-- What the import of the files of one source leaves in the tables.
use dtu.Prelude.{
  ℕ, ◌≡◌, refl, ap, ◌∙◌, inl, inr, Bool, true, false, ◌&&◌, not, none, List, [], ◌∷◌, arith,
  Bool-cases, Text,
}
use dtu.Graph.{
  SetupEvent, Csv, in_dir, World, Outside, GraphResult, ok, err, Action, called, continue, ◌>>◌,
  on_event, import_done, import_started, same_kind, has_load, of_kind, load_csv, import_csv,
  check_cancel, do_smalisa_imports,
}
use dtu.Graph.Staging.{IsStored, StagesOnly, Stepped, load_csv-Stepped}

abbrev other_kinds : Csv → List Csv → Bool
other_kinds csv [] = true
other_kinds csv (d ∷ csvs) = not (same_kind csv d) && other_kinds csv csvs

abbrev pub all_apart : List Csv → Bool
all_apart [] = true
all_apart (csv ∷ csvs) = other_kinds csv csvs && all_apart csvs

abbrev pub AreFresh : List Csv → World → Type 0
AreFresh [] w = Unit {0}
AreFresh (csv ∷ csvs) w = (of_kind csv w.staged ≡ []) × AreFresh csvs w

pub AreFresh-clean : (csvs : List Csv) (w : World) → w.staged ≡ [] → AreFresh csvs w
AreFresh-clean [] w h = tt
AreFresh-clean (csv ∷ csvs) w h = (ap (of_kind csv) h, AreFresh-clean csvs w h)

AreFresh-step :
    (csv : Csv) (csvs : List Csv) (w v : World)
    → other_kinds csv csvs ≡ true
    → StagesOnly csv w v
    → AreFresh csvs w
    → AreFresh csvs v
AreFresh-step csv [] w v apart only h = tt
AreFresh-step csv (d ∷ csvs) w v apart only (h, rest) = (
  only d (ground (arith, apart)) ∙ h,
  AreFresh-step csv csvs w v (ground (arith, apart)) only rest,
)

module _ (o : Outside) (stores : (n : ℕ) → o.status_fails n ≡ none)
    (answers : (n : ℕ) → o.query_fails n ≡ false) where
  told :
      (csv : Csv) (evt : SetupEvent) (w : World) (r : GraphResult × World)
      → Stepped csv w r.1
      → Stepped csv w (continue r (on_event evt)).1
  told csv evt w (ok, v) s = record {
    is_stored = record { stored = s.is_stored.stored; once = s.is_stored.once };
    others = s.others;
  }
  told csv evt w (err e, v) s = s

  import_csv-Stepped :
      (source dir : Text) (csv : Csv) (w : World)
      → of_kind csv w.staged ≡ []
      → IsStored w
      → Stepped csv w (import_csv o source dir csv w).1
  unfolding import_csv
  import_csv-Stepped source dir csv w fresh h =
      elim (Bool-cases (has_load (source, csv) w.load_status)) [
        | inl old ↦
            rw (import_csv, answers w.calls, old)
              (record {
                is_stored = record { stored = h.stored; once = h.once };
                others = λ d other. refl;
              })
        | inr new ↦
            let begun : World = (on_event (import_started (in_dir csv dir)) (called w)).1 in
            let loaded =
              load_csv-Stepped o stores (source, csv) begun new fresh
                (record { stored = h.stored; once = h.once }) in
            rw (import_csv, answers w.calls, new)
              (told csv (import_done (in_dir csv dir)) w (load_csv o (source, csv) begun)
                (record { is_stored = loaded.is_stored; others = loaded.others }))
      ]

  checked_import-Stepped :
      (source dir : Text) (csv : Csv) (w : World)
      → of_kind csv w.staged ≡ []
      → IsStored w
      → Stepped csv w ((check_cancel o >> import_csv o source dir csv) w).1
  checked_import-Stepped source dir csv w fresh h = elim (Bool-cases (o.cancel w.calls)) [
    | inl e ↦ rw e (record {
      is_stored = record { stored = h.stored; once = h.once };
      others = λ d other. refl;
    })
    | inr e ↦
        let s =
          import_csv-Stepped source dir csv (called w) fresh
            (record { stored = h.stored; once = h.once }) in
        rw e (record { is_stored = s.is_stored; others = s.others })
  ]

  after_step :
      (csv : Csv) (w : World) (r : GraphResult × World) (m : Action)
      → ((v : World) → Stepped csv w v → IsStored (m v).1)
      → Stepped csv w r.1
      → IsStored (continue r m).1
  after_step csv w (ok, v) m rest s = rest v s
  after_step csv w (err e, v) m rest s = s.is_stored

  pub imports-IsStored :
      (source dir : Text) (csvs : List Csv) (w : World)
      → all_apart csvs ≡ true
      → AreFresh csvs w
      → IsStored w
      → IsStored (do_smalisa_imports o source dir csvs w).1
  unfolding do_smalisa_imports
  imports-IsStored source dir [] w apart fresh h = h
  imports-IsStored source dir (csv ∷ csvs) w apart (fresh, rest) h =
      after_step csv w ((check_cancel o >> import_csv o source dir csv) w)
        (do_smalisa_imports o source dir csvs)
        (λ v s.
          imports-IsStored source dir csvs v (ground (arith, apart))
            (AreFresh-step csv csvs w v (ground (arith, apart)) s.others rest) s.is_stored)
        (checked_import-Stepped source dir csv w fresh h)
