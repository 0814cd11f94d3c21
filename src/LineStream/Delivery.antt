-- ===== src/LineStream/Delivery.antt =====
-- What the callbacks get, whatever the chunks and their interleaving.
use dtu.Prelude.{
  ℕ, ◌≡◌, refl, sym, ap, ◌∙◌, Bool, true, false, not, ◌&&◌, Option, none, some, List, [], ◌∷◌, ◌++◌,
  append-nil, append_assoc, arith, if◌then◌else◌, length, take, drop, is_empty, retain, Text,
}
use dtu.LineStream.Pieces.{lines_of}
use dtu.LineStream.{Chunk, Pipe, Stream, pipe_of, with_pipe, pieces, deliver, call, hand_on}

abbrev pub same_pipe : Bool → Bool → Bool
same_pipe a b = if a then b else not b

-- The lines among the calls for one pipe.
abbrev pub said : Bool → List (Bool × Text) → List Text
said side [] = []
said side ((b, l) ∷ calls) =
    let rest = said side calls in if same_pipe b side && not (is_empty l) then l ∷ rest else rest

-- What one pipe gave in all.
abbrev pub received : Bool → List Chunk → Text
received side [] = []
received side (c ∷ cs) =
    let rest = received side cs in if same_pipe c.is_out side then c.bytes ++ rest else rest

said-append :
    (side : Bool) (xs ys : List (Bool × Text)) → said side (xs ++ ys) ≡ said side xs ++ said side ys
said-append side [] ys = refl
said-append side ((b, l) ∷ xs) ys = ground (arith, said-append side xs ys)

pipe_of-with_pipe :
    (a b : Bool) (p : Pipe) (s : Stream)
    → pipe_of a (with_pipe b p s) ≡ (if same_pipe b a then p else pipe_of a s)
pipe_of-with_pipe true true p s = refl
pipe_of-with_pipe true false p s = refl
pipe_of-with_pipe false true p s = refl
pipe_of-with_pipe false false p s = refl

pub with_pipe-calls :
    (b : Bool) (p : Pipe) (s : Stream)
    → ((with_pipe b p s).calls ≡ s.calls) × ((with_pipe b p s).callback_error ≡ s.callback_error)
with_pipe-calls true p s = (refl, refl)
with_pipe-calls false p s = (refl, refl)

module _ (split_on : ℕ) (fails : List (Bool × Text) → Bool)
    (never : (calls : List (Bool × Text)) → fails calls ≡ false) where
  abbrev nonempty : Bool → Bool → List Text → List Text
  nonempty b side ls = if same_pipe b side then retain (λ l. not (is_empty l)) ls else []

  -- Callbacks that give no error get every piece.
  abbrev IsDelivered : Bool → Bool → List Text → Stream → Stream → Type 0
  IsDelivered side b ls s s' =
      (pipe_of side s' ≡ pipe_of side s)
      × (s'.callback_error ≡ false)
      × (said side s'.calls ≡ said side s.calls ++ nonempty b side ls)

  deliver-cons :
      (b : Bool) (l : Text) (ls : List Text) (s : Stream)
      → s.callback_error ≡ false
      → deliver split_on fails b (l ∷ ls) s
        ≡ deliver split_on fails b ls (call split_on fails b l s)
  unfolding deliver
  deliver-cons b l ls s h = rw h refl

  nonempty-cons :
      (b side : Bool) (l : Text) (ls : List Text)
      → nonempty b side (l ∷ ls) ≡ said side ((b, l) ∷ []) ++ nonempty b side ls
  nonempty-cons b side l ls = ground arith

  deliver-IsDelivered :
      (side b : Bool) (ls : List Text) (s : Stream)
      → s.callback_error ≡ false
      → IsDelivered side b ls s (deliver split_on fails b ls s)
  deliver-IsDelivered side b [] s h =
      unfold deliver in (refl, h, ground (arith, append-nil (said side s.calls)))
  deliver-IsDelivered side b (l ∷ ls) s h =
      let (p, e, c) = deliver-IsDelivered side b ls (call split_on fails b l s) (never _) in
      rw (deliver-cons b l ls s h) (
        p,
        e,
        c
            ∙ ap (λ x. x ++ nonempty b side ls) (said-append side s.calls ((b, l) ∷ []))
            ∙ append_assoc (said side s.calls) (said side ((b, l) ∷ [])) (nonempty b side ls)
            ∙ ap (λ x. said side s.calls ++ x) (sym (nonempty-cons b side l ls)),
      )

  -- What is handed on for one pipe leaves the other pipe's buffer and lines.
  abbrev pub IsQuiet : Bool → Stream → Stream → Type 0
  IsQuiet side s s' =
      (pipe_of side s' ≡ pipe_of side s)
      × (s'.callback_error ≡ false)
      × (said side s'.calls ≡ said side s.calls)

  pub hand_on-IsQuiet :
      (side b : Bool) (bytes : Text) (o : Option ℕ) (s : Stream)
      → same_pipe b side ≡ false
      → s.callback_error ≡ false
      → IsQuiet side s (hand_on split_on fails b bytes o s)
  unfolding hand_on
  hand_on-IsQuiet side b bytes none s h k = ground (
    arith,
    pipe_of-with_pipe side b (record { buffer = bytes; pos = length bytes }) s,
    with_pipe-calls b (record { buffer = bytes; pos = length bytes }) s,
  )
  hand_on-IsQuiet side b bytes (some idx) s h k =
      let s1 = deliver split_on fails b (pieces split_on (take idx bytes)) s in
      let p : Pipe = record { buffer = drop idx bytes; pos = 0 } in
      let (p1, e1, c1) = deliver-IsDelivered side b (pieces split_on (take idx bytes)) s k in
      ground (
        arith,
        p1,
        e1,
        c1,
        h,
        pipe_of-with_pipe side b p s1,
        with_pipe-calls b p s1,
        append-nil (said side s.calls),
      )

  same_pipe_refl : (b : Bool) → same_pipe b b ≡ true
  same_pipe_refl true = refl
  same_pipe_refl false = refl

  -- The pipe's own lines and buffer, where something is handed on.
  pub hand_on-some :
      (side : Bool) (bytes : Text) (idx : ℕ) (s : Stream)
      → s.callback_error ≡ false
      → let s' = hand_on split_on fails side bytes (some idx) s in
        (pipe_of side s' ≡ record { buffer = drop idx bytes; pos = 0 })
        × (s'.callback_error ≡ false)
        × (said side s'.calls ≡ said side s.calls ++ lines_of split_on (take idx bytes))
  unfolding hand_on
  hand_on-some side bytes idx s k =
      let s1 = deliver split_on fails side (pieces split_on (take idx bytes)) s in
      let p : Pipe = record { buffer = drop idx bytes; pos = 0 } in
      let (p1, e1, c1) = deliver-IsDelivered side side (pieces split_on (take idx bytes)) s k in
      ground (
        arith,
        p1,
        e1,
        c1,
        same_pipe_refl side,
        pipe_of-with_pipe side side p s1,
        with_pipe-calls side p s1,
      )

  pub hand_on-none :
      (side : Bool) (bytes : Text) (s : Stream)
      → s.callback_error ≡ false
      → let s' = hand_on split_on fails side bytes none s in
        (pipe_of side s' ≡ record { buffer = bytes; pos = length bytes })
        × (s'.callback_error ≡ false)
        × (said side s'.calls ≡ said side s.calls)
  unfolding hand_on
  hand_on-none side bytes s k =
      let p : Pipe = record { buffer = bytes; pos = length bytes } in
      ground (arith, same_pipe_refl side, pipe_of-with_pipe side side p s, with_pipe-calls side p s)
