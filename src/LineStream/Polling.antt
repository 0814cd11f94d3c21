-- ===== src/LineStream/Polling.antt =====
-- The loop of `read2` (Unix) of dtu/src/command.rs, which reads both pipes of a child. What each `poll`
-- and each read gives is an argument.
pub mod Finish
use dtu.Prelude.{
  ℕ, zero, suc, ◌+◌, ◌-◌, ◌*◌, ◌/◌, ◌%◌, ◌^◌, ◌≤◌, ◌<◌, String, ◌≡◌, refl, sym, ap, ap₂, ◌∙◌,
  fun_ext, ◌≢◌, ◌↔◌, ◌⊎◌, inl, inr, Bool, true, false, not, ◌&&◌, ◌||◌, Option, none, some, List,
  [], ◌∷◌, ◌++◌, map, append-nil, append_assoc, map-append, arith, ltb, leb, ◌==◌, if◌then◌else◌,
  ==_iff, ==-refl, Bool-cases, Option-cases, length, take, drop, all, is_empty, retain,
  length-append, all-append, retain-append, Text, codes, same, same_iff, same_refl, contains,
  contains-append, starts_with_char, ends_with_char, ends_with_char-append, starts_with,
  starts_with-append, trim_start_matches, trim_end_matches, split_once, rsplit_once, split_once_lem,
  split_once-append, rsplit_once-none, rsplit_once-append, rsplit_once-eq-none, rsplit_once-eq-some,
}
use dtu.LineStream.{Chunk, Stream, on_data}

-- `read_to_end` on a pipe that does not block: the bytes that it appended, and how it returned.
pub data Read : Type 0 where
  read_end read_blocked read_failed : Text → Read

-- One `poll`: interrupted, failed, or the pipes with events and what is read from them.
pub data Poll : Type 0 where
  poll_interrupted poll_failed : Poll
  polled : Option Read → Option Read → Poll

-- A loop that has used up the polls waits for more.
pub data Outcome : Type 0 where
  finished failed waiting : Outcome

-- What a pipe's half of the loop's body appends, and whether the pipe is done then; nothing where
-- the loop returns an error.
abbrev pub read_pipe : Bool → Option Read → Option (Text × Bool)
read_pipe true r = some ([], true)
read_pipe false none = some ([], false)
read_pipe false (some (read_end bytes)) = some (bytes, true)
read_pipe false (some (read_blocked bytes)) = some (bytes, false)
read_pipe false (some (read_failed bytes)) = none

module _ (split_on : ℕ) (fails : List (Bool × Text) → Bool) where
  abbrev pub give : Bool → Text → Bool → Stream → Stream
  give side bytes done s =
      on_data split_on fails s (record { is_out = side; bytes = bytes; eof = done })

  -- The loop's body: first what was read from the pipe of the errors, then the other.
  abbrev pub read_both :
      Option (Text × Bool)
      → Option (Text × Bool)
      → (Bool → Bool → Stream → Outcome × Stream)
      → Stream
      → Outcome × Stream
  read_both none out rest s = (failed, s)
  read_both (some (e, err_done)) none rest s = (failed, give false e err_done s)
  read_both (some (e, err_done)) (some (o, out_done)) rest s =
      rest err_done out_done (give true o out_done (give false e err_done s))

  -- `err_done` and `out_done` say which pipes are left: `nfds` is 0 when both are set.
  unfoldable pub read2 : Bool → Bool → List Poll → Stream → Outcome × Stream
  read2 true true polls s = (finished, s)
  read2 err_done out_done [] s = (waiting, s)
  read2 err_done out_done (poll_interrupted ∷ polls) s = read2 err_done out_done polls s
  read2 err_done out_done (poll_failed ∷ polls) s = (failed, s)
  read2 err_done out_done (polled err out ∷ polls) s =
      read_both (read_pipe err_done err) (read_pipe out_done out)
        (λ err_done' out_done' s'. read2 err_done' out_done' polls s') s
