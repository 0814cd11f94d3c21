-- ===== src/LineStream/Errors.antt =====
-- A callback that gives an error is the last to be called.
use dtu.Prelude.{
  ℕ, ◌≡◌, refl, sym, ap, ◌∙◌, inl, inr, Bool, true, false, Option, none, some, List, [], ◌∷◌, ◌++◌,
  arith, Bool-cases, length, take, drop, Text,
}
use dtu.LineStream.{Chunk, Stream, start, on_data, on_chunks, deliver, call, hand_on, pieces}
use dtu.LineStream.Delivery.{with_pipe-calls}

module _ (split_on : ℕ) (fails : List (Bool × Text) → Bool) where
  -- The flag is set exactly by a call that gave an error, and the calls stay once it is.
  abbrev IsKept : Stream → Stream → Type 0
  IsKept s s' =
      (s.callback_error ≡ true → (s'.callback_error ≡ true) × (s'.calls ≡ s.calls))
      × (s.callback_error ≡ false → s'.callback_error ≡ true → fails s'.calls ≡ true)

  deliver-stopped :
      (b : Bool) (ls : List Text) (s : Stream)
      → s.callback_error ≡ true
      → deliver split_on fails b ls s ≡ s
  unfolding deliver
  deliver-stopped b [] s h = refl
  deliver-stopped b (l ∷ ls) s h = ground (arith, h)

  deliver-failed :
      (b : Bool) (ls : List Text) (s : Stream)
      → s.callback_error ≡ false
      → (deliver split_on fails b ls s).callback_error ≡ true
      → fails (deliver split_on fails b ls s).calls ≡ true
  unfolding deliver
  deliver-failed b [] s h e = absurd (ground (arith, h, e))
  deliver-failed b (l ∷ ls) s h e =
      let s1 = call split_on fails b l s in
      elim (Bool-cases (fails (s.calls ++ (b, l) ∷ []))) [
        | inl bad ↦ ground (arith, h, bad, deliver-stopped b ls s1 bad)
        | inr good ↦ ground (arith, h, good, deliver-failed b ls s1 good)
      ]

  hand_on-IsKept :
      (b : Bool) (bytes : Text) (o : Option ℕ) (s : Stream)
      → IsKept s (hand_on split_on fails b bytes o s)
  unfolding hand_on
  hand_on-IsKept b bytes none s =
      let (c, e) = with_pipe-calls b (record { buffer = bytes; pos = length bytes }) s in
      (λ h. (e ∙ h, c), λ h k. absurd (ground (arith, h, k, e)))
  hand_on-IsKept b bytes (some idx) s =
      let ls = pieces split_on (take idx bytes) in
      let s1 = deliver split_on fails b ls s in
      let (c, e) = with_pipe-calls b (record { buffer = drop idx bytes; pos = 0 }) s1 in
      (
        λ h.
            let stays = deliver-stopped b ls s h in
            (
              e ∙ ap (λ (x : Stream). x.callback_error) stays ∙ h,
              c ∙ ap (λ (x : Stream). x.calls) stays,
            ),
        λ h k. ap fails c ∙ deliver-failed b ls s h (sym e ∙ k),
      )

  on_data-IsKept : (s : Stream) (c : Chunk) → IsKept s (on_data split_on fails s c)
  unfolding on_data
  on_data-IsKept s c = hand_on-IsKept c.is_out _ _ s

  on_chunks-stopped :
      (s : Stream) (cs : List Chunk)
      → s.callback_error ≡ true
      → (on_chunks split_on fails s cs).calls ≡ s.calls
  unfolding on_chunks
  on_chunks-stopped s [] h = refl
  on_chunks-stopped s (c ∷ cs) h =
      let (e, calls) = (on_data-IsKept s c).0 h in
      on_chunks-stopped (on_data split_on fails s c) cs e ∙ calls

  -- The flag is only set behind a call that gave an error.
  abbrev IsHonest : Stream → Type 0
  IsHonest s = s.callback_error ≡ true → fails s.calls ≡ true

  on_chunks-IsHonest :
      (s : Stream) (cs : List Chunk) → IsHonest s → IsHonest (on_chunks split_on fails s cs)
  unfolding on_chunks
  on_chunks-IsHonest s [] h = h
  on_chunks-IsHonest s (c ∷ cs) h =
      let kept = on_data-IsKept s c in
      on_chunks-IsHonest (on_data split_on fails s c) cs (λ k. elim (Bool-cases s.callback_error) [
        | inl bad ↦ ap fails (kept.0 bad).1 ∙ h bad
        | inr good ↦ kept.1 good k
      ])

  -- Where an error was recorded, the last call was the one that gave it, and no callback of either pipe
  -- is called again, whatever chunks follow.
  pub on_chunks_error :
      (cs ds : List Chunk)
      → (on_chunks split_on fails start cs).callback_error ≡ true
      → (fails (on_chunks split_on fails start cs).calls ≡ true)
        × ((on_chunks split_on fails (on_chunks split_on fails start cs) ds).calls
            ≡ (on_chunks split_on fails start cs).calls)
  on_chunks_error cs ds h = (
    on_chunks-IsHonest start cs (λ k. cc k) h,
    on_chunks-stopped (on_chunks split_on fails start cs) ds h,
  )
