-- ===== src/Pull/Filesets.antt =====
-- The files of one name, of which one has to be decompiled.
pub mod Outcomes
use dtu.Prelude.{
  ℕ, zero, suc, ◌+◌, ◌-◌, ◌*◌, ◌/◌, ◌%◌, ◌^◌, ◌≤◌, ◌<◌, String, ◌≡◌, refl, sym, ap, ap₂, ◌∙◌,
  fun_ext, ◌≢◌, ◌↔◌, ◌⊎◌, inl, inr, Bool, true, false, not, ◌&&◌, ◌||◌, Option, none, some, List,
  [], ◌∷◌, ◌++◌, map, append-nil, append_assoc, map-append, arith, ltb, leb, ◌==◌, if◌then◌else◌,
  ==_iff, ==-refl, Bool-cases, Option-cases, length, take, drop, all, is_empty, retain,
  length-append, all-append, retain-append, Text, codes, same, same_iff, same_refl, contains,
  contains-append, starts_with_char, ends_with_char, ends_with_char-append, starts_with,
  starts_with-append, trim_start_matches, trim_end_matches, split_once, rsplit_once, split_once_lem,
  split_once-append, rsplit_once-none, rsplit_once-append, rsplit_once-eq-none, rsplit_once-eq-some,
}
use dtu.Pull.Files.{NormalizedDeviceFile}
use dtu.Pull.Exec.{
  PullError, cancelled, PullResult, ok, err, World, Outside, Action, settle, result,
}
use dtu.Pull.Decompile.{Pull, do_decompile_normalized_file}

-- `res` is the error of the last file that had one; `next` goes on with the other files.
abbrev pub after_file :
    (PullResult (Unit {0}) → Action (Unit {0}))
    → PullResult (Unit {0})
    → PullResult Bool
    → Action (Unit {0})
after_file next res (ok true) = result (ok tt)
after_file next res (ok false) = next res
after_file next res (err cancelled) = result (err cancelled)
after_file next res (err e) = next (err e)

abbrev pub only_file : PullResult Bool → PullResult (Unit {0})
only_file (ok success) = ok tt
only_file (err e) = err e

module _ (o : Outside) (t : Pull) where
  unfoldable pub fileset_loop :
      List NormalizedDeviceFile → PullResult (Unit {0}) → Action (Unit {0})
  fileset_loop [] res w = (res, w)
  fileset_loop (nf ∷ files) res w =
      settle (do_decompile_normalized_file o t nf w) (after_file (fileset_loop files) res)

  -- The list of files is never empty (Pull.Files.Grouping).
  unfoldable pub handle_normalized_fileset : List NormalizedDeviceFile → Action (Unit {0})
  unfolding fileset_loop
  handle_normalized_fileset [] w = (ok tt, w)
  handle_normalized_fileset (nf ∷ []) w =
      settle (do_decompile_normalized_file o t nf w) (λ r. result (only_file r))
  handle_normalized_fileset (nf ∷ other ∷ files) w = fileset_loop (nf ∷ other ∷ files) (ok tt) w
