-- ===== src/Pull/Filesets/Outcomes.antt =====
-- Which of the files of one name are tried, and what that comes to.
use dtu.Prelude.{
  ◌≡◌, refl, ap, ◌∙◌, Bool, true, false, ◌||◌, Option, none, some, List, [], ◌∷◌, if◌then◌else◌,
}
use dtu.Pull.Files.{NormalizedDeviceFile}
use dtu.Pull.Exec.{
  PullError, install_apktool_framework, invalid_path, cancelled, base, decompile_error, db_error,
  PullResult, ok, err, World, Outside,
}
use dtu.Pull.Decompile.{Pull, is_ok_true, do_decompile_normalized_file}
use dtu.Pull.Filesets.{handle_normalized_fileset, only_file, fileset_loop, after_file}

-- A success and a cancellation end the search.
abbrev pub ends : PullResult Bool → Bool
ends (ok success) = success
ends (err cancelled) = true
ends (err e) = false

abbrev pub tried :
    PullResult Bool → World → List (PullResult Bool) × World → List (PullResult Bool) × World
tried r v (rs, w) = elim (ends r) [ true ↦ (r ∷ [], v) | false ↦ (r ∷ rs, w) ]

-- The results of the files tried, in their order.
pub outcomes : Outside → Pull → List NormalizedDeviceFile → World → List (PullResult Bool) × World
outcomes o t [] w = ([], w)
outcomes o t (nf ∷ files) w =
    let (r, v) = do_decompile_normalized_file o t nf w in tried r v (outcomes o t files v)

abbrev pub has_success : List (PullResult Bool) → Bool
has_success [] = false
has_success (r ∷ rs) = is_ok_true r || has_success rs

abbrev pub or_earlier : PullError → Option PullError → Option PullError
or_earlier e none = some e
or_earlier e (some later) = some later

abbrev pub last_error : List (PullResult Bool) → Option PullError
last_error [] = none
last_error (ok success ∷ rs) = last_error rs
last_error (err e ∷ rs) = or_earlier e (last_error rs)

abbrev pub or_error : PullResult (Unit {0}) → Option PullError → PullResult (Unit {0})
or_error res none = res
or_error res (some e) = err e

abbrev pub verdict : PullResult (Unit {0}) → List (PullResult Bool) → PullResult (Unit {0})
verdict res rs = if has_success rs then ok tt else or_error res (last_error rs)

or_error-or_earlier :
    (e : PullError) (res : PullResult (Unit {0})) (later : Option PullError)
    → or_error (err e) later ≡ or_error res (or_earlier e later)
or_error-or_earlier e res none = refl
or_error-or_earlier e res (some later) = refl

verdict-err :
    (e : PullError) (res : PullResult (Unit {0})) (rs : List (PullResult Bool))
    → verdict (err e) rs ≡ verdict res (err e ∷ rs)
verdict-err e res rs =
    ap (λ (r : PullResult (Unit {0})). if has_success rs then ok tt else r)
      (or_error-or_earlier e res (last_error rs))

abbrev judged :
    PullResult (Unit {0}) → List (PullResult Bool) × World → PullResult (Unit {0}) × World
judged res (rs, w) = (verdict res rs, w)

module _ (o : Outside) (t : Pull) where
  after_error :
      (files : List NormalizedDeviceFile) (res : PullResult (Unit {0})) (e : PullError) (v : World)
      → ((r : PullResult (Unit {0})) → fileset_loop o t files r v ≡ judged r (outcomes o t files v))
      → fileset_loop o t files (err e) v
        ≡ judged res (err e ∷ (outcomes o t files v).0, (outcomes o t files v).1)
  after_error files res e v ih =
      ih (err e)
      ∙ ap (λ (r : PullResult (Unit {0})). (r, (outcomes o t files v).1))
          (verdict-err e res (outcomes o t files v).0)

  loop_cases :
      (files : List NormalizedDeviceFile) (res : PullResult (Unit {0})) (r : PullResult Bool)
      (v : World)
      → ((r : PullResult (Unit {0})) → fileset_loop o t files r v ≡ judged r (outcomes o t files v))
      → after_file (fileset_loop o t files) res r v ≡ judged res (tried r v (outcomes o t files v))
  loop_cases files res (ok true) v ih = refl
  loop_cases files res (ok false) v ih = ih res
  loop_cases files res (err cancelled) v ih = refl
  loop_cases files res (err install_apktool_framework) v ih =
      after_error files res install_apktool_framework v ih
  loop_cases files res (err invalid_path) v ih = after_error files res invalid_path v ih
  loop_cases files res (err base) v ih = after_error files res base v ih
  loop_cases files res (err decompile_error) v ih = after_error files res decompile_error v ih
  loop_cases files res (err (db_error e)) v ih = after_error files res (db_error e) v ih

  fileset_loop_lem :
      (files : List NormalizedDeviceFile) (res : PullResult (Unit {0})) (w : World)
      → fileset_loop o t files res w ≡ judged res (outcomes o t files w)
  unfolding fileset_loop outcomes
  fileset_loop_lem [] res w = refl
  fileset_loop_lem (nf ∷ files) res w =
      let (r, v) = do_decompile_normalized_file o t nf w in
      loop_cases files res r v (λ r'. fileset_loop_lem files r' v)

  only_file_lem :
      (r : PullResult Bool) (v : World) → (only_file r, v) ≡ judged (ok tt) (tried r v ([], v))
  only_file_lem (ok true) v = refl
  only_file_lem (ok false) v = refl
  only_file_lem (err cancelled) v = refl
  only_file_lem (err install_apktool_framework) v = refl
  only_file_lem (err invalid_path) v = refl
  only_file_lem (err base) v = refl
  only_file_lem (err decompile_error) v = refl
  only_file_lem (err (db_error e)) v = refl

  -- The files of one name are tried in their order until one is decompiled or the pull is cancelled, and
  -- none behind that. The result is fine if one was decompiled, and else the last error, if any: a file
  -- that gives nothing hides no error of another, and an error is forgotten by a later success only.
  pub handle_normalized_fileset_lem :
      (files : List NormalizedDeviceFile) (w : World)
      → handle_normalized_fileset o t files w
        ≡ (verdict (ok tt) (outcomes o t files w).0, (outcomes o t files w).1)
  unfolding handle_normalized_fileset outcomes
  handle_normalized_fileset_lem [] w = refl
  handle_normalized_fileset_lem (nf ∷ []) w =
      let (r, v) = do_decompile_normalized_file o t nf w in only_file_lem r v
  handle_normalized_fileset_lem (nf ∷ other ∷ files) w =
      fileset_loop_lem (nf ∷ other ∷ files) (ok tt) w
