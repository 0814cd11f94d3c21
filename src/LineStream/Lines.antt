-- ===== src/LineStream/Lines.antt =====
-- The lines of a pipe: those of the text that it gave, however the text was cut into chunks.
use dtu.Prelude.{
  ℕ, ◌+◌, ◌≤◌, ◌≡◌, refl, sym, ap, ◌∙◌, ◌⊎◌, inl, inr, Bool, true, false, not, ◌&&◌, ◌||◌, none,
  some, List, [], ◌∷◌, ◌++◌, append-nil, append_assoc, arith, length, take, drop, all, is_empty,
  Text, contains,
}
use dtu.LineStream.{
  Chunk, Pipe, Stream, pipe_of, start, rposition, on_data, index_of, hand_on, pieces,
}
use dtu.LineStream.Pieces.{
  lines_of, lines_of-append, lines_of-nil, rposition-Found_behind, take-drop, take-length,
}
use dtu.LineStream.Delivery.{same_pipe, said, hand_on-some, hand_on-none}

-- No chunk of the pipe is its last, and what comes behind the last one is empty.
abbrev pub IsOpen : Bool → List Chunk → Type 0
IsOpen side cs = all (λ c. not (same_pipe c.is_out side && c.eof)) cs ≡ true

abbrev pub IsClosed : Bool → List Chunk → Type 0
IsClosed side cs = all (λ c. not (same_pipe c.is_out side) || c.eof && is_empty c.bytes) cs ≡ true

module _ (split_on : ℕ) where
  -- A text that is empty or ends in a separator.
  abbrev pub IsWhole : Text → Type 0
  IsWhole x = (x ≡ []) ⊎ ((a : Text) × (x ≡ a ++ split_on ∷ []))

  lines_of-whole :
      (x y : Text)
      → IsWhole x
      → lines_of split_on (x ++ y) ≡ lines_of split_on x ++ lines_of split_on y
  lines_of-whole x y (inl e) = rw e (rw (lines_of-nil split_on) refl)
  lines_of-whole x y (inr (a, e)) = ground (
    arith,
    e,
    append_assoc a (split_on ∷ []) y,
    lines_of-append split_on a y,
    lines_of-append split_on a [],
    lines_of-nil split_on,
    append-nil (lines_of split_on a),
  )

  IsWhole-append : (x y a : Text) → y ≡ a ++ split_on ∷ [] → IsWhole (x ++ y)
  IsWhole-append x y a e = inr (x ++ a, ap (λ z. x ++ z) e ∙ sym (append_assoc x a (split_on ∷ [])))

  -- What a pipe gave is what was handed on, which ends at a separator, and the buffer, which has none.
  abbrev pub IsCut : Bool → Text → Stream → Type 0
  IsCut side r s =
      (s.callback_error ≡ false)
      × ((handed : Text) × (r ≡ handed ++ (pipe_of side s).buffer)
          × (said side s.calls ≡ lines_of split_on handed)
          × IsWhole handed
          × (contains (pipe_of side s).buffer split_on ≡ false)
          × ((pipe_of side s).pos ≤ length (pipe_of side s).buffer))

  abbrev pub IsEnded : Bool → Text → Stream → Type 0
  IsEnded side r s =
      (s.callback_error ≡ false)
      × (said side s.calls ≡ lines_of split_on r)
      × ((pipe_of side s).buffer ≡ [])

  pub start-IsCut : (side : Bool) → IsCut side [] start
  start-IsCut true = (refl, ([], refl, sym (lines_of-nil split_on), inl refl, refl, omega arith))
  start-IsCut false = (refl, ([], refl, sym (lines_of-nil split_on), inl refl, refl, omega arith))

  module _ (fails : List (Bool × Text) → Bool)
      (never : (calls : List (Bool × Text)) → fails calls ≡ false) where
    abbrev pub chunk : Bool → Text → Bool → Chunk
    chunk side bytes eof = record { is_out = side; bytes = bytes; eof = eof }

    -- What a chunk becomes, as the search finds a separator or not.
    on_data-none :
        (side : Bool) (bytes : Text) (s : Stream)
        → rposition split_on (drop (pipe_of side s).pos ((pipe_of side s).buffer ++ bytes)) ≡ none
        → on_data split_on fails s (chunk side bytes false)
          ≡ hand_on split_on fails side ((pipe_of side s).buffer ++ bytes) none s
    unfolding on_data index_of rposition
    on_data-none side bytes s e = rw e refl

    on_data-some :
        (side : Bool) (bytes : Text) (s : Stream) (i : ℕ)
        → rposition split_on (drop (pipe_of side s).pos ((pipe_of side s).buffer ++ bytes)) ≡ some i
        → on_data split_on fails s (chunk side bytes false)
          ≡ hand_on split_on fails side
              ((pipe_of side s).buffer ++ bytes)
              (some ((pipe_of side s).pos + i + 1))
              s
    unfolding on_data index_of rposition pieces
    on_data-some side bytes s i e = rw e refl

    received-more :
        (handed old bytes r rest : Text) (n : ℕ)
        → r ≡ handed ++ old
        → drop n (old ++ bytes) ≡ rest
        → r ++ bytes ≡ (handed ++ take n (old ++ bytes)) ++ rest
    received-more handed old bytes r rest n hr hd =
        ap (λ x. x ++ bytes) hr
        ∙ append_assoc handed old bytes
        ∙ ap (λ x. handed ++ x) (sym (take-drop split_on n (old ++ bytes)))
        ∙ sym (append_assoc handed (take n (old ++ bytes)) (drop n (old ++ bytes)))
        ∙ ap (λ x. (handed ++ take n (old ++ bytes)) ++ x) hd

    pub on_data-IsCut :
        (side : Bool) (r bytes : Text) (s : Stream)
        → IsCut side r s
        → IsCut side (r ++ bytes) (on_data split_on fails s (chunk side bytes false))
    on_data-IsCut side r bytes s (h, (handed, hr, hl, hw, hb, hp)) =
        let old = (pipe_of side s).buffer in
        let pos = (pipe_of side s).pos in
        elim (rposition-Found_behind split_on pos old bytes hb hp) [
          | inl (e, none_left) ↦
              let (p1, e1, c1) = hand_on-none split_on fails never side (old ++ bytes) s h in
              rw (on_data-none side bytes s e) (
                e1,
                (
                  handed,
                  ap (λ x. x ++ bytes) hr
                      ∙ append_assoc handed old bytes
                      ∙ ap (λ (p : Pipe). handed ++ p.buffer) (sym p1),
                  c1 ∙ hl,
                  hw,
                  ap (λ (p : Pipe). contains p.buffer split_on) p1 ∙ none_left,
                  rw p1 (omega arith),
                ),
              )
          | inr (i, a, e, t, d) ↦
              let n = pos + i + 1 in
              let (p1, e1, c1) = hand_on-some split_on fails never side (old ++ bytes) n s h in
              rw (on_data-some side bytes s i e) (
                e1,
                (
                  handed ++ take n (old ++ bytes),
                  received-more handed old bytes r (drop n (old ++ bytes)) n hr refl
                      ∙ ap (λ (p : Pipe). (handed ++ take n (old ++ bytes)) ++ p.buffer) (sym p1),
                  c1
                      ∙ ap (λ x. x ++ lines_of split_on (take n (old ++ bytes))) hl
                      ∙ sym (lines_of-whole handed (take n (old ++ bytes)) hw),
                  IsWhole-append handed (take n (old ++ bytes)) a t,
                  ap (λ (p : Pipe). contains p.buffer split_on) p1 ∙ d,
                  rw p1 (omega arith),
                ),
              )
        ]

    -- The last chunk of a pipe hands on the rest.
    pub on_data-IsEnded :
        (side : Bool) (r bytes : Text) (s : Stream)
        → IsCut side r s
        → IsEnded side (r ++ bytes) (on_data split_on fails s (chunk side bytes true))
    unfolding on_data index_of
    on_data-IsEnded side r bytes s (h, (handed, hr, hl, hw, hb, hp)) =
        let whole = (pipe_of side s).buffer ++ bytes in
        let (p1, e1, c1) = hand_on-some split_on fails never side whole (length whole) s h in
        let (t, d) = take-length split_on whole in
        (
          e1,
          c1
              ∙ ap (λ x. said side s.calls ++ lines_of split_on x) t
              ∙ ap (λ x. x ++ lines_of split_on whole) hl
              ∙ sym (lines_of-whole handed whole hw)
              ∙ ap (lines_of split_on)
                  (sym (ap (λ x. x ++ bytes) hr ∙ append_assoc handed _ bytes)),
          ap (λ (p : Pipe). p.buffer) p1 ∙ d,
        )

    -- An empty chunk at the end of a pipe adds nothing.
    pub on_data-IsEnded_again :
        (side : Bool) (r : Text) (s : Stream)
        → IsEnded side r s
        → IsEnded side r (on_data split_on fails s (chunk side [] true))
    unfolding on_data index_of
    on_data-IsEnded_again side r s (h, hl, hb) =
        let whole = (pipe_of side s).buffer ++ [] in
        let (p1, e1, c1) = hand_on-some split_on fails never side whole (length whole) s h in
        let (t, d) = take-length split_on whole in
        (
          e1,
          c1
              ∙ ap (λ x. said side s.calls ++ lines_of split_on x)
                  (t ∙ append-nil (pipe_of side s).buffer ∙ hb)
              ∙ ap (λ x. said side s.calls ++ x) (lines_of-nil split_on)
              ∙ append-nil (said side s.calls)
              ∙ hl,
          ap (λ (p : Pipe). p.buffer) p1 ∙ d,
        )
