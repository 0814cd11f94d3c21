-- ===== src/Pull/Run/Progress.antt =====
-- What counts as a completed pull.
use dtu.Prelude.{ℕ, ◌≡◌, refl, ap, ◌∙◌, true, false, Option, none, List, [], Text}
use dtu.Pull.Exec.{
  PullError, PullResult, ok, World, Outside, Action, called, continue, attempted, of_error, ◌>>=◌,
  ◌>>◌,
}
use dtu.Pull.Decompile.{Pull}
use dtu.Pull.Finding.{find_apks, send_each, unseen}
use dtu.Pull.Run.{
  apk_worker, Device, apks_sent, pull_apks, pull_framework, check_cancelled, update_progress, run,
}

then_lem :
    {A B : Type 0} (m : Action A) (f : A → Action B) {a : A} {w v : World}
    → m w ≡ (ok a, v)
    → (m >>= f) w ≡ f a v
then_lem {A} m f h = ap (λ (r : PullResult A × World). continue r f) h

module _ (o : Outside) where
  attempted_lem : (w : World) → o.attempt w.calls ≡ none → attempted o w ≡ (ok tt, called w)
  attempted_lem w h = rw h refl

  check_cancelled_lem :
      (w : World) → o.cancel w.calls ≡ false → check_cancelled o w ≡ (ok tt, called w)
  check_cancelled_lem w h = rw h refl

  update_progress_lem :
      (w : World)
      → o.db_fails w.calls ≡ none
      → update_progress o w ≡ (ok tt, record (called w) { completed = true })
  update_progress_lem w h = rw (update_progress, h) refl

module _ (o : Outside) (t : Pull) (works : (n : ℕ) → o.attempt n ≡ none) where
  -- The workers do not change the result.
  pull_apks_lem :
      (lines : List Text) (w : World) → (v : World) × (pull_apks o t lines w ≡ (ok tt, v))
  unfolding pull_apks
  pull_apks_lem lines w =
      let (sent, u) = send_each o (unseen [] lines) (called w) in
      (
        apk_worker o t sent (called u),
        then_lem (attempted o) (λ _ v. apks_sent o t (find_apks o lines v))
              (attempted_lem o w (works w.calls))
            ∙ ap (λ (e : Option PullError). apks_sent o t ((of_error e, sent), called u))
                (works u.calls),
      )

-- Once the frameworks are pulled and the flag was read a last time, the pull ends well and counts as
-- completed, whatever later reads of the flag say and whatever becomes of the APKs: a pull that is
-- cancelled while the APKs are decompiled is one that is complete. The directories can be made, the
-- search for APKs ends well, and the database answers.
pub run_completes :
    (o : Outside)
    → ((n : ℕ) → o.attempt n ≡ none)
    → ((n : ℕ) → o.db_fails n ≡ none)
    → (t : Pull) (d : Device) (w v : World) → o.cancel w.calls ≡ false
    → pull_framework o t d.framework_dirs (called w) ≡ (ok tt, v)
    → o.cancel v.calls ≡ false
    → (w' : World) × (run o t d w ≡ (ok tt, w')) × (w'.completed ≡ true)
unfolding run
run_completes o works answers t d w v start frameworks last =
    let (u, apks) = pull_apks_lem o t works d.apks (called v) in
    let first = check_cancelled_lem o w start in
    let pulled =
      then_lem (check_cancelled o) (λ _. pull_framework o t d.framework_dirs) first ∙ frameworks in
    let checked =
      then_lem (check_cancelled o >> pull_framework o t d.framework_dirs) (λ _. check_cancelled o)
        pulled
      ∙ check_cancelled_lem o v last in
    let done =
      then_lem (check_cancelled o >> pull_framework o t d.framework_dirs >> check_cancelled o)
        (λ _. pull_apks o t d.apks) checked
      ∙ apks in
    (
      record (called u) { completed = true },
      then_lem
            (check_cancelled o
              >> pull_framework o t d.framework_dirs
              >> check_cancelled o
              >> pull_apks o t d.apks)
            (λ _. update_progress o) done
          ∙ update_progress_lem o u (answers u.calls),
      refl,
    )
