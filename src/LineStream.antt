-- ===== src/LineStream.antt =====
-- The line splitting of `run_cmd_split_streamed` of dtu/src/command.rs: what the child writes to its two
-- pipes arrives in chunks, in any interleaving, and the callbacks get the lines.
pub mod Pieces
pub mod Delivery
pub mod Lines
pub mod Runs
pub mod Polling
pub mod Errors
mod Tests
use dtu.Prelude.{
  ℕ, suc, ◌+◌, Bool, true, false, Option, none, some, List, [], ◌∷◌, ◌++◌, ◌==◌, if◌then◌else◌,
  length, take, drop, Text,
}

-- One call of `read2`'s closure: what the pipe gave since the last call, and whether it is at its end.
pub record Chunk : Type 0 where
  pub is_out : Bool
  pub bytes : Text
  pub eof : Bool

-- The buffer of a pipe, and how much of it was searched.
pub record Pipe : Type 0 where
  pub buffer : Text
  pub pos : ℕ

-- `calls` are the lines that the callbacks got, with the pipe of each, in order.
pub record Stream : Type 0 where
  pub out : Pipe
  pub err : Pipe
  pub calls : List (Bool × Text)
  pub callback_error : Bool

abbrev pub start : Stream
start = record {
  out = record { buffer = []; pos = 0 };
  err = record { buffer = []; pos = 0 };
  calls = [];
  callback_error = false;
}

abbrev pub pipe_of : Bool → Stream → Pipe
pipe_of is_out s = if is_out then s.out else s.err

abbrev pub with_pipe : Bool → Pipe → Stream → Stream
with_pipe true p s = record s { out = p }
with_pipe false p s = record s { err = p }

-- `rposition(|b| *b == split_on)`
unfoldable pub rposition : ℕ → Text → Option ℕ
rposition sep [] = none
rposition sep (c ∷ cs) = elim (rposition sep cs) [
  | some i ↦ some (suc i)
  | none ↦ if c == sep then some 0 else none
]

abbrev onto_first : ℕ → List Text → List Text
onto_first c [] = (c ∷ []) ∷ []
onto_first c (l ∷ ls) = (c ∷ l) ∷ ls

-- `slice::split`: always one piece more than there are separators.
unfoldable pub pieces : ℕ → Text → List Text
pieces sep [] = [] ∷ []
pieces sep (c ∷ cs) = let rest = pieces sep cs in if c == sep then [] ∷ rest else onto_first c rest

-- `split_on` is the separator; `fails` says whether the last of the calls so far gave an error.
module _ (split_on : ℕ) (fails : List (Bool × Text) → Bool) where
  abbrev pub call : Bool → Text → Stream → Stream
  call is_out l s =
      let calls = s.calls ++ (is_out, l) ∷ [] in
      record s { calls = calls; callback_error = fails calls }

  -- No callback is called behind an error.
  unfoldable pub deliver : Bool → List Text → Stream → Stream
  deliver is_out [] s = s
  deliver is_out (l ∷ ls) s = elim s.callback_error [
    | true ↦ s
    | false ↦ deliver is_out ls (call is_out l s)
  ]

  -- Where the part of the buffer that is handed on ends, if there is one.
  index_of : Bool → ℕ → Text → Option ℕ
  index_of true pos bytes = some (length bytes)
  index_of false pos bytes = elim (rposition split_on (drop pos bytes)) [
    | some i ↦ some (pos + i + 1)
    | none ↦ none
  ]

  pub hand_on : Bool → Text → Option ℕ → Stream → Stream
  unfolding deliver
  hand_on is_out bytes none s = with_pipe is_out (record { buffer = bytes; pos = length bytes }) s
  hand_on is_out bytes (some idx) s =
      with_pipe is_out (record { buffer = drop idx bytes; pos = 0 })
        (deliver is_out (pieces split_on (take idx bytes)) s)

  -- The closure, with the buffer that `read2` has extended by the chunk.
  unfoldable pub on_data : Stream → Chunk → Stream
  unfolding index_of hand_on
  on_data s c =
      let bytes = (pipe_of c.is_out s).buffer ++ c.bytes in
      hand_on c.is_out bytes (index_of c.eof (pipe_of c.is_out s).pos bytes) s

  unfoldable pub on_chunks : Stream → List Chunk → Stream
  unfolding on_data
  on_chunks s [] = s
  on_chunks s (c ∷ cs) = on_chunks (on_data s c) cs
