-- ===== src/LineStream/Runs.antt =====
-- Whole runs: any interleaving of the chunks of both pipes.
use dtu.Prelude.{
  ℕ, ◌≡◌, refl, ◌∙◌, inl, inr, Bool, true, false, List, [], ◌∷◌, ◌++◌, append-nil, append_assoc,
  arith, Bool-cases, is_empty, Text,
}
use dtu.LineStream.{Chunk, Stream, start, on_data, on_chunks}
use dtu.LineStream.Pieces.{lines_of}
use dtu.LineStream.Delivery.{same_pipe, said, received, IsQuiet, hand_on-IsQuiet}
use dtu.LineStream.Lines.{
  IsOpen, IsClosed, IsCut, IsEnded, start-IsCut, on_data-IsCut, on_data-IsEnded,
  on_data-IsEnded_again,
}

same_pipe-eq : (a b : Bool) → same_pipe a b ≡ true → a ≡ b
same_pipe-eq a b h = ground (arith, h)

is_empty-eq : (s : Text) → is_empty s ≡ true → s ≡ []
is_empty-eq [] h = refl
is_empty-eq (c ∷ s) h = ground (arith, h)

own_chunk :
    (side : Bool) (c : Chunk) (bytes : Text) (eof : Bool)
    → same_pipe c.is_out side ≡ true
    → c.bytes ≡ bytes
    → c.eof ≡ eof
    → c ≡ record { is_out = side; bytes = bytes; eof = eof }
own_chunk side c bytes eof h b e i = record {
  is_out = same_pipe-eq c.is_out side h i;
  bytes = b i;
  eof = e i;
}

module _ (split_on : ℕ) (fails : List (Bool × Text) → Bool)
    (never : (calls : List (Bool × Text)) → fails calls ≡ false) where
  pub on_data-IsQuiet :
      (side : Bool) (s : Stream) (c : Chunk)
      → same_pipe c.is_out side ≡ false
      → s.callback_error ≡ false
      → IsQuiet split_on fails never side s (on_data split_on fails s c)
  unfolding on_data
  on_data-IsQuiet side s c h k = hand_on-IsQuiet split_on fails never side c.is_out _ _ s h k

  pub IsCut-quiet :
      (side : Bool) (r : Text) (s s' : Stream)
      → IsCut split_on side r s
      → IsQuiet split_on fails never side s s'
      → IsCut split_on side r s'
  IsCut-quiet side r s s' (h, (handed, hr, hl, hw, hb, hp)) (q, e, c) =
      (e, (handed, rw q hr, c ∙ hl, hw, rw q hb, rw q hp))

  pub IsEnded-quiet :
      (side : Bool) (r : Text) (s s' : Stream)
      → IsEnded split_on side r s
      → IsQuiet split_on fails never side s s'
      → IsEnded split_on side r s'
  IsEnded-quiet side r s s' (h, hl, hb) (q, e, c) = (e, c ∙ hl, rw q hb)

  on_chunks-IsCut :
      (side : Bool) (cs : List Chunk) (r : Text) (s : Stream)
      → IsCut split_on side r s
      → IsOpen side cs
      → IsCut split_on side (r ++ received side cs) (on_chunks split_on fails s cs)
  unfolding on_chunks
  on_chunks-IsCut side [] r s h o = rw (append-nil r) h
  on_chunks-IsCut side (c ∷ cs) r s h o = elim (Bool-cases (same_pipe c.is_out side)) [
    | inl own ↦
        let e : c.eof ≡ false = ground (arith, own, o) in
        let next : IsCut split_on side (r ++ c.bytes) (on_data split_on fails s c) =
          rw (own_chunk side c c.bytes false own refl e)
            (on_data-IsCut split_on fails never side r c.bytes s h) in
        let all_of =
          on_chunks-IsCut side cs (r ++ c.bytes) (on_data split_on fails s c) next
            (ground (arith, own, o)) in
        rw own (rw (← append_assoc r c.bytes (received side cs)) all_of)
    | inr other ↦
        let next =
          IsCut-quiet side r s (on_data split_on fails s c) h
            (on_data-IsQuiet side s c other h.0) in
        rw other
          (on_chunks-IsCut side cs r (on_data split_on fails s c) next (ground (arith, other, o)))
  ]

  on_chunks-IsEnded :
      (side : Bool) (cs : List Chunk) (r : Text) (s : Stream)
      → IsEnded split_on side r s
      → IsClosed side cs
      → IsEnded split_on side r (on_chunks split_on fails s cs)
  unfolding on_chunks
  on_chunks-IsEnded side [] r s h o = h
  on_chunks-IsEnded side (c ∷ cs) r s h o = elim (Bool-cases (same_pipe c.is_out side)) [
    | inl own ↦
        let e : c.eof ≡ true = ground (arith, own, o) in
        let b : is_empty c.bytes ≡ true = ground (arith, own, o) in
        let next : IsEnded split_on side r (on_data split_on fails s c) =
          rw (own_chunk side c [] true own (is_empty-eq c.bytes b) e)
            (on_data-IsEnded_again split_on fails never side r s h) in
        on_chunks-IsEnded side cs r (on_data split_on fails s c) next (ground (arith, own, o))
    | inr other ↦
        let next =
          IsEnded-quiet side r s (on_data split_on fails s c) h
            (on_data-IsQuiet side s c other h.0) in
        on_chunks-IsEnded side cs r (on_data split_on fails s c) next (ground (arith, other, o))
  ]

  on_chunks-append :
      (s : Stream) (xs ys : List Chunk)
      → on_chunks split_on fails s (xs ++ ys)
        ≡ on_chunks split_on fails (on_chunks split_on fails s xs) ys
  unfolding on_chunks
  on_chunks-append s [] ys = refl
  on_chunks-append s (x ∷ xs) ys = on_chunks-append (on_data split_on fails s x) xs ys

  -- While a pipe is open, and no callback gives an error, its callback has got the lines of what the pipe
  -- gave up to its last separator, the empty ones aside, and the buffer is the rest, which has no
  -- separator, whatever the other pipe gave.
  pub on_chunks_open :
      (side : Bool) (cs : List Chunk)
      → IsOpen side cs
      → IsCut split_on side (received side cs) (on_chunks split_on fails start cs)
  on_chunks_open side cs o = on_chunks-IsCut side cs [] start (start-IsCut split_on side) o

  -- When a pipe has come to its end, and no callback gave an error, its callback has got the lines
  -- of all that the pipe gave, the empty ones aside, however the text was cut into chunks, and
  -- whatever the other pipe gave between them and afterwards. What the pipe gives behind its end
  -- is empty.
  pub on_chunks_ended :
      (side : Bool) (cs ds : List Chunk) (bytes : Text)
      → IsOpen side cs
      → IsClosed side ds
      → said side
          (on_chunks split_on fails start
            (cs ++ record { is_out = side; bytes = bytes; eof = true } ∷ ds)).calls
        ≡ lines_of split_on (received side cs ++ bytes)
  unfolding on_chunks
  on_chunks_ended side cs ds bytes o k =
      let cut = on_chunks_open side cs o in
      let last =
        on_data-IsEnded split_on fails never side (received side cs) bytes
          (on_chunks split_on fails start cs) cut in
      let ended = on_chunks-IsEnded side ds _ _ last k in
      rw (on_chunks-append start cs (record { is_out = side; bytes = bytes; eof = true } ∷ ds))
        ended.1
