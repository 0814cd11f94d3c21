-- ===== src/LineStream/Tests.antt =====
-- The theorems at a short run of both pipes.
use dtu.Prelude.{◌≡◌, refl, Bool, true, false, none, some, List, [], ◌∷◌, ◌++◌, Text, codes}
use dtu.LineStream.{Chunk, start, on_chunks, pieces, rposition}
use dtu.LineStream.Delivery.{said}
use dtu.LineStream.Runs.{on_chunks_ended}
use dtu.LineStream.Polling.{Poll, poll_interrupted, polled, read_end, read_blocked, finished, read2}
use dtu.LineStream.Polling.Finish.{read2_lines}
use dtu.LineStream.Errors.{on_chunks_error}

abbrev chunk_of : Bool → Text → Bool → Chunk
chunk_of side bytes eof = record { is_out = side; bytes = bytes; eof = eof }

-- The first line of the output arrives in two chunks, with one of the other pipe between them.
abbrev chunks : List Chunk
chunks =
    chunk_of true (codes "a") false
    ∷ (chunk_of false (codes "x\ny") false ∷ (chunk_of true (codes "b\n\nc") false ∷ []))

abbrev fine : List (Bool × Text) → Bool
fine calls = false

abbrev bad : List (Bool × Text) → Bool
bad calls = true

on_chunks_ended_example :
    said true
      (on_chunks b'\n' fine start
        (chunks ++ chunk_of true (codes "d") true ∷ (chunk_of true [] true ∷ []))).calls
    ≡ codes "ab" ∷ (codes "cd" ∷ [])
unfolding pieces
on_chunks_ended_example =
    on_chunks_ended b'\n' fine (λ calls. refl) true chunks (chunk_of true [] true ∷ []) (codes "d")
      refl refl

on_chunks_error_example :
    (true ≡ true)
    × ((on_chunks b'\n' bad (on_chunks b'\n' bad start chunks) chunks).calls
        ≡ (false, codes "x") ∷ [])
unfolding on_chunks rposition pieces
on_chunks_error_example = on_chunks_error b'\n' bad chunks chunks refl

abbrev polls : List Poll
polls =
    polled (some (read_blocked (codes "x"))) (some (read_blocked (codes "a")))
    ∷ poll_interrupted
    ∷ polled (some (read_end (codes "\ny"))) none
    ∷ polled none (some (read_end (codes "b\nc")))
    ∷ []

read2_lines_example :
    ((read2 b'\n' fine false false polls start).0 ≡ finished)
    × ((said false (read2 b'\n' fine false false polls start).1.calls ≡ codes "x" ∷ codes "y" ∷ [])
        × (said true (read2 b'\n' fine false false polls start).1.calls
            ≡ codes "ab" ∷ codes "c" ∷ []))
unfolding pieces
read2_lines_example = read2_lines b'\n' fine (λ calls. refl) polls refl refl refl
