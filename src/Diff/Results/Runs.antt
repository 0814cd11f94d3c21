-- ===== src/Diff/Results/Runs.antt =====
-- The whole run of `DiffTask`: its phases in order, with the cancel flag read before each.
use dtu.Prelude.{
  ◌+◌, ◌≡◌, refl, sym, ap, ◌∙◌, fun_ext, Bool, true, false, not, List, [], ◌∷◌, ◌++◌, if◌then◌else◌,
}
use dtu.Diff.Exec.{
  World, Exec, DiffError, DiffResult, ok, err, cancelled, pure, continue, ◌>>◌, >>=-eq-ok,
}
use dtu.Diff.Components.{DiffTask, cancel_check, diff_apks}
use dtu.Diff.Task.{
  diff_receivers, diff_services, diff_activities, diff_providers, diff_permissions,
  diff_system_services, run, run_apks,
}

module _ {S : Type 0} (t : DiffTask S) where
  -- The phases that the task's flags choose.
  abbrev pub apk_phases : List (Exec S (Unit {0}))
  apk_phases =
      diff_apks t
      ∷ (diff_receivers t
          ∷ (diff_activities t
              ∷ (diff_services t ∷ (diff_providers t ∷ (diff_permissions t ∷ [])))))

  abbrev pub phases : List (Exec S (Unit {0}))
  phases =
      (if t.do_system_services then diff_system_services t else pure tt)
      ∷ (if t.do_apks then apk_phases else [])

  -- Each phase behind a read of the flag, up to the first error.
  abbrev pub run_phases : List (Exec S (Unit {0})) → Exec S (Unit {0})
  run_phases [] = pure tt
  run_phases (p ∷ ps) = cancel_check t >> (p >> run_phases ps)

  abbrev pub checked : World S → World S
  checked w = record w { checks = w.checks + 1 }

  last_phase : (r : DiffResult (Unit {0}) × World S) → continue r (λ _. pure {S = S} tt) ≡ r
  last_phase (ok a, w) = refl
  last_phase (err e, w) = refl

  last_apk_phase : (diff_permissions t >> pure tt) ≡ diff_permissions t
  last_apk_phase = fun_ext (λ w. last_phase (diff_permissions t w))

  run_apks-phases : run_apks t ≡ run_phases apk_phases
  unfolding run_apks
  run_apks-phases =
      ap
        (λ (last : Exec S (Unit {0})).
          cancel_check t
          >> (diff_apks t
              >> (cancel_check t
                  >> (diff_receivers t
                      >> (cancel_check t
                          >> (diff_activities t
                              >> (cancel_check t
                                  >> (diff_services t
                                      >> (cancel_check t
                                          >> (diff_providers t >> (cancel_check t >> last)))))))))))
        (sym last_apk_phase)

  apks_chosen :
      (b : Bool)
      → (if not b then pure tt else run_apks t) ≡ run_phases (if b then apk_phases else [])
  apks_chosen true = run_apks-phases
  apks_chosen false = refl

  run-phases : (w : World S) → run t w ≡ run_phases phases w
  unfolding run
  run-phases w =
      ap
        (λ (m : Exec S (Unit {0})).
          (cancel_check t
              >> ((if t.do_system_services then diff_system_services t else pure tt) >> m))
            w)
        (apks_chosen t.do_apks)

  run_phases-append :
      (xs ys : List (Exec S (Unit {0}))) (w w' : World S)
      → run_phases xs w ≡ (ok tt, w')
      → run_phases (xs ++ ys) w ≡ run_phases ys w'
  run_phases-append [] ys w w' h =
      ap (run_phases ys) (ap (λ (p : DiffResult (Unit {0}) × World S). p.1) h)
  run_phases-append (x ∷ xs) ys w w' h =
      let (a, v, e1, k1) = >>=-eq-ok (cancel_check t) (λ _. x >> run_phases xs) w w' h in
      let (b, u, e2, k2) = >>=-eq-ok x (λ _. run_phases xs) v w' k1 in
      rw e1 (rw e2 (run_phases-append xs ys u w' k2))

  -- The run does what the phases chosen by the task's flags do in order: where some of them have run, and
  -- the flag then reads true before the next, the run ends as cancelled, in the world that those
  -- phases left.
  pub run_cancelled :
      (xs ys : List (Exec S (Unit {0}))) (y : Exec S (Unit {0})) (w w' : World S)
      → phases ≡ xs ++ y ∷ ys
      → run_phases xs w ≡ (ok tt, w')
      → t.cancel w'.checks ≡ true
      → run t w ≡ (err cancelled, checked w')
  unfolding cancel_check
  run_cancelled xs ys y w w' hp hx hc =
      run-phases w
      ∙ ap (λ ps. run_phases ps w) hp
      ∙ run_phases-append xs (y ∷ ys) w w' hx
      ∙ rw hc refl

  -- Where some of the phases that the flags choose have run, the flag is not set, and the next phase
  -- gives an error, the run ends with that error, in the world that this phase left, and the later
  -- phases do not run.
  pub run_failed :
      (xs ys : List (Exec S (Unit {0}))) (y : Exec S (Unit {0})) (w w' w'' : World S)
      (e : DiffError)
      → phases ≡ xs ++ y ∷ ys
      → run_phases xs w ≡ (ok tt, w')
      → t.cancel w'.checks ≡ false
      → y (checked w') ≡ (err e, w'')
      → run t w ≡ (err e, w'')
  unfolding cancel_check
  run_failed xs ys y w w' w'' e hp hx hc hy =
      run-phases w
      ∙ ap (λ ps. run_phases ps w) hp
      ∙ run_phases-append xs (y ∷ ys) w w' hx
      ∙ rw hc (rw hy refl)
