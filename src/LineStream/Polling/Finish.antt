-- ===== src/LineStream/Polling/Finish.antt =====
-- What the callbacks have got when the loop has finished.
use dtu.Prelude.{
  ℕ, ◌≡◌, refl, sym, ap, ◌∙◌, Bool, true, false, ◌&&◌, ◌||◌, Option, none, some, List, [], ◌∷◌,
  ◌++◌, append-nil, append_assoc, arith, if◌then◌else◌, all, Text,
}
use dtu.LineStream.{Stream, start}
use dtu.LineStream.Pieces.{lines_of}
use dtu.LineStream.Delivery.{said, same_pipe}
use dtu.LineStream.Lines.{
  IsCut, IsEnded, start-IsCut, on_data-IsCut, on_data-IsEnded, on_data-IsEnded_again,
}
use dtu.LineStream.Runs.{on_data-IsQuiet, IsCut-quiet, IsEnded-quiet}
use dtu.LineStream.Polling.{
  Read, read_end, read_blocked, read_failed, Poll, poll_interrupted, poll_failed, polled, finished,
  read_pipe, read2, give, read_both,
}

abbrev onto : Option (Text × Bool) → (Bool → Text) → Text
onto none rest = rest false
onto (some (b, done)) rest = b ++ rest done

abbrev pick : Bool → Option Read → Option Read → Option Read
pick side err out = if side then out else err

-- All that the polls give of a pipe, up to its end.
abbrev pub text_of : Bool → Bool → List Poll → Text
text_of side true polls = []
text_of side false [] = []
text_of side false (poll_interrupted ∷ polls) = text_of side false polls
text_of side false (poll_failed ∷ polls) = text_of side false polls
text_of side false (polled err out ∷ polls) =
    onto (read_pipe false (pick side err out)) (λ done. text_of side done polls)

-- No read that failed, and a read that came to the end of the pipe.
abbrev sound_read : Option Read → Bool
sound_read (some (read_failed b)) = false
sound_read _ = true

abbrev is_end : Option Read → Bool
is_end (some (read_end b)) = true
is_end _ = false

abbrev pub is_sound : Poll → Bool
is_sound poll_interrupted = true
is_sound poll_failed = false
is_sound (polled err out) = sound_read err && sound_read out

abbrev pub ends : Bool → List Poll → Bool
ends side [] = false
ends side (poll_interrupted ∷ polls) = ends side polls
ends side (poll_failed ∷ polls) = ends side polls
ends side (polled err out ∷ polls) = is_end (pick side err out) || ends side polls

next_done :
    (d : Bool) (r : Option Read) (rest : Bool)
    → sound_read r ≡ true
    → (d || (is_end r || rest)) ≡ true
    → (b : Text) × (d' : Bool) × (read_pipe d r ≡ some (b, d')) × ((d' || rest) ≡ true)
next_done true r rest h e = ([], true, refl, refl)
next_done false none rest h e = ([], false, refl, e)
next_done false (some (read_end b)) rest h e = (b, true, refl, refl)
next_done false (some (read_blocked b)) rest h e = (b, false, refl, e)
next_done false (some (read_failed b)) rest h e = absurd (cc h)

some_pair :
    (x : Text) (d : Bool) (y : Text) (d' : Bool)
    → ◌≡◌ {A = Option (Text × Bool)} (some (x, d)) (some (y, d'))
    → (x ≡ y) × (d ≡ d')
some_pair x d y d' e = (ground (arith, e), ground (arith, e))

module _ (split_on : ℕ) (fails : List (Bool × Text) → Bool)
    (never : (calls : List (Bool × Text)) → fails calls ≡ false) where
  abbrev IsHeld : Bool → Bool → Text → Stream → Type 0
  IsHeld side true r s = IsEnded split_on side r s
  IsHeld side false r s = IsCut split_on side r s

  give-own :
      (side done done' : Bool) (rd : Option Read) (r b : Text) (s : Stream)
      → IsHeld side done r s
      → read_pipe done rd ≡ some (b, done')
      → IsHeld side done' (r ++ b) (give split_on fails side b done' s)
  give-own side true done' rd r b s h e = rw (← (some_pair [] true b done' e).0) (
      rw (← (some_pair [] true b done' e).1)
        (rw (append-nil r) (on_data-IsEnded_again split_on fails never side r s h)))
  give-own side false done' none r b s h e =
      rw (← (some_pair [] false b done' e).0)
        (rw (← (some_pair [] false b done' e).1) (on_data-IsCut split_on fails never side r [] s h))
  give-own side false done' (some (read_end x)) r b s h e =
      rw (← (some_pair x true b done' e).0)
        (rw (← (some_pair x true b done' e).1) (on_data-IsEnded split_on fails never side r x s h))
  give-own side false done' (some (read_blocked x)) r b s h e =
      rw (← (some_pair x false b done' e).0)
        (rw (← (some_pair x false b done' e).1) (on_data-IsCut split_on fails never side r x s h))
  give-own side false done' (some (read_failed x)) r b s h e = absurd (ground (arith, e))

  give-other :
      (side done other : Bool) (r b : Text) (done' : Bool) (s : Stream)
      → same_pipe other side ≡ false
      → IsHeld side done r s
      → IsHeld side done r (give split_on fails other b done' s)
  give-other side true other r b done' s o h =
      IsEnded-quiet split_on fails never side r s _ h
        (on_data-IsQuiet split_on fails never side s _ o h.0)
  give-other side false other r b done' s o h =
      IsCut-quiet split_on fails never side r s _ h
        (on_data-IsQuiet split_on fails never side s _ o h.0)

text_of-polled :
    (side done done' : Bool) (err out : Option Read) (polls : List Poll) (b : Text)
    → read_pipe done (pick side err out) ≡ some (b, done')
    → text_of side done (polled err out ∷ polls) ≡ b ++ text_of side done' polls
text_of-polled side true done' err out polls b e = ground (arith, e)
text_of-polled side false done' err out polls b e =
    ap (λ o. onto o (λ done. text_of side done polls)) e

module _ (split_on : ℕ) (fails : List (Bool × Text) → Bool)
    (never : (calls : List (Bool × Text)) → fails calls ≡ false) where
  abbrev HasAll : Stream → Text → Text → Type 0
  HasAll s err out =
      (said false s.calls ≡ lines_of split_on err) × (said true s.calls ≡ lines_of split_on out)

  abbrev Rest : List Poll → Type 0
  Rest polls =
      (ed od : Bool) (s : Stream) (re ro : Text)
      → IsHeld split_on fails never false ed re s
      → IsHeld split_on fails never true od ro s
      → (read2 split_on fails ed od polls s).0 ≡ finished
      → HasAll (read2 split_on fails ed od polls s).1 (re ++ text_of false ed polls)
          (ro ++ text_of true od polls)

  read_both-HasAll :
      (ed od : Bool) (err out : Option Read) (polls : List Poll) (p q : Option (Text × Bool))
      (s : Stream) (re ro : Text)
      → Rest polls
      → IsHeld split_on fails never false ed re s
      → IsHeld split_on fails never true od ro s
      → read_pipe ed err ≡ p
      → read_pipe od out ≡ q
      → (read_both split_on fails p q (λ ed' od' s'. read2 split_on fails ed' od' polls s') s).0
        ≡ finished
      → HasAll
          (read_both split_on fails p q (λ ed' od' s'. read2 split_on fails ed' od' polls s') s).1
          (re ++ text_of false ed (polled err out ∷ polls))
          (ro ++ text_of true od (polled err out ∷ polls))
  read_both-HasAll ed od err out polls none q s re ro rest he ho hp hq h = absurd (cc h)
  read_both-HasAll ed od err out polls (some (e, ed')) none s re ro rest he ho hp hq h =
      absurd (cc h)
  read_both-HasAll ed od err out polls (some (e, ed')) (some (o, od')) s re ro rest he ho hp hq h =
      let s1 = give split_on fails false e ed' s in
      let he1 = give-own split_on fails never false ed ed' err re e s he hp in
      let ho1 = give-other split_on fails never true od false ro e ed' s refl ho in
      let ho2 = give-own split_on fails never true od od' out ro o s1 ho1 hq in
      let he2 = give-other split_on fails never false ed' true (re ++ e) o od' s1 refl he1 in
      let (errs, outs) =
        rest ed' od' (give split_on fails true o od' s1) (re ++ e) (ro ++ o) he2 ho2 h in
      (
        errs
            ∙ ap (lines_of split_on) (
                append_assoc re e (text_of false ed' polls)
                ∙ ap (λ x. re ++ x) (sym (text_of-polled false ed ed' err out polls e hp))),
        outs
            ∙ ap (lines_of split_on) (
                append_assoc ro o (text_of true od' polls)
                ∙ ap (λ x. ro ++ x) (sym (text_of-polled true od od' err out polls o hq))),
      )

  read2-HasAll :
      (ed od : Bool) (polls : List Poll) (s : Stream) (re ro : Text)
      → IsHeld split_on fails never false ed re s
      → IsHeld split_on fails never true od ro s
      → (read2 split_on fails ed od polls s).0 ≡ finished
      → HasAll
          (read2 split_on fails ed od polls s).1
          (re ++ text_of false ed polls)
          (ro ++ text_of true od polls)
  unfolding read2
  read2-HasAll true true polls s re ro he ho h = (rw (append-nil re) he.1, rw (append-nil ro) ho.1)
  read2-HasAll true false [] s re ro he ho h = absurd (cc h)
  read2-HasAll false true [] s re ro he ho h = absurd (cc h)
  read2-HasAll false false [] s re ro he ho h = absurd (cc h)
  read2-HasAll true false (poll_interrupted ∷ ps) s re ro he ho h =
      read2-HasAll true false ps s re ro he ho h
  read2-HasAll false true (poll_interrupted ∷ ps) s re ro he ho h =
      read2-HasAll false true ps s re ro he ho h
  read2-HasAll false false (poll_interrupted ∷ ps) s re ro he ho h =
      read2-HasAll false false ps s re ro he ho h
  read2-HasAll true false (poll_failed ∷ ps) s re ro he ho h = absurd (cc h)
  read2-HasAll false true (poll_failed ∷ ps) s re ro he ho h = absurd (cc h)
  read2-HasAll false false (poll_failed ∷ ps) s re ro he ho h = absurd (cc h)
  read2-HasAll true false (polled err out ∷ ps) s re ro he ho h =
      read_both-HasAll true false err out ps (read_pipe true err) (read_pipe false out) s re ro
        (λ ed' od' s' re' ro' he' ho' h'. read2-HasAll ed' od' ps s' re' ro' he' ho' h') he ho refl
        refl h
  read2-HasAll false true (polled err out ∷ ps) s re ro he ho h =
      read_both-HasAll false true err out ps (read_pipe false err) (read_pipe true out) s re ro
        (λ ed' od' s' re' ro' he' ho' h'. read2-HasAll ed' od' ps s' re' ro' he' ho' h') he ho refl
        refl h
  read2-HasAll false false (polled err out ∷ ps) s re ro he ho h =
      read_both-HasAll false false err out ps (read_pipe false err) (read_pipe false out) s re ro
        (λ ed' od' s' re' ro' he' ho' h'. read2-HasAll ed' od' ps s' re' ro' he' ho' h') he ho refl
        refl h

  read_both_finishes :
      (ed od : Bool) (err out : Option Read) (ps : List Poll) (s : Stream)
      → (is_sound (polled err out) && all is_sound ps) ≡ true
      → (ed || (is_end err || ends false ps)) ≡ true
      → (od || (is_end out || ends true ps)) ≡ true
      → ((ed' od' : Bool) (s' : Stream)
          → all is_sound ps ≡ true
          → (ed' || ends false ps) ≡ true
          → (od' || ends true ps) ≡ true
          → (read2 split_on fails ed' od' ps s').0 ≡ finished)
      → (read_both split_on fails
          (read_pipe ed err)
          (read_pipe od out)
          (λ ed' od' s'. read2 split_on fails ed' od' ps s')
          s).0
        ≡ finished
  read_both_finishes ed od err out ps s h he ho rest =
      let (b, ed', p, he') = next_done ed err (ends false ps) (ground (arith, h)) he in
      let (c, od', q, ho') = next_done od out (ends true ps) (ground (arith, h)) ho in
      rw p (rw q (rest ed' od' _ (ground (arith, h)) he' ho'))

  read2_finishes :
      (ed od : Bool) (polls : List Poll) (s : Stream)
      → all is_sound polls ≡ true
      → (ed || ends false polls) ≡ true
      → (od || ends true polls) ≡ true
      → (read2 split_on fails ed od polls s).0 ≡ finished
  unfolding read2
  read2_finishes true true polls s h he ho = refl
  read2_finishes true false [] s h he ho = absurd (cc ho)
  read2_finishes false true [] s h he ho = absurd (cc he)
  read2_finishes false false [] s h he ho = absurd (cc he)
  read2_finishes true false (poll_interrupted ∷ ps) s h he ho =
      read2_finishes true false ps s h he ho
  read2_finishes false true (poll_interrupted ∷ ps) s h he ho =
      read2_finishes false true ps s h he ho
  read2_finishes false false (poll_interrupted ∷ ps) s h he ho =
      read2_finishes false false ps s h he ho
  read2_finishes true false (poll_failed ∷ ps) s h he ho = absurd (cc h)
  read2_finishes false true (poll_failed ∷ ps) s h he ho = absurd (cc h)
  read2_finishes false false (poll_failed ∷ ps) s h he ho = absurd (cc h)
  read2_finishes true false (polled err out ∷ ps) s h he ho =
      read_both_finishes true false err out ps s h he ho
        (λ ed' od' s'. read2_finishes ed' od' ps s')
  read2_finishes false true (polled err out ∷ ps) s h he ho =
      read_both_finishes false true err out ps s h he ho
        (λ ed' od' s'. read2_finishes ed' od' ps s')
  read2_finishes false false (polled err out ∷ ps) s h he ho =
      read_both_finishes false false err out ps s h he ho
        (λ ed' od' s'. read2_finishes ed' od' ps s')

  -- Where no poll and no read fails, each pipe comes to its end, and no callback gives an error, the
  -- loop finishes, and each callback has got the lines of all that was read from its pipe, the empty
  -- ones aside, however the reads cut the text and the polls interleaved the pipes.
  pub read2_lines :
      (polls : List Poll)
      → all is_sound polls ≡ true
      → ends false polls ≡ true
      → ends true polls ≡ true
      → ((read2 split_on fails false false polls start).0 ≡ finished)
        × HasAll
            (read2 split_on fails false false polls start).1
            (text_of false false polls)
            (text_of true false polls)
  read2_lines polls h he ho =
      let done = read2_finishes false false polls start h he ho in
      (
        done,
        read2-HasAll false false polls start [] [] (start-IsCut split_on false)
            (start-IsCut split_on true) done,
      )
