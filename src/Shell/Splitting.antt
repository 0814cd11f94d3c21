-- ===== src/Shell/Splitting.antt =====
-- What `split` makes of words, plain and quoted.
use dtu.Prelude.{
  ℕ, ◌≡◌, refl, ap, ◌∙◌, Bool, true, false, not, ◌&&◌, ◌||◌, some, List, [], ◌∷◌, ◌++◌, append-nil,
  append_assoc, arith, ◌==◌, all, is_empty, Text, codes,
}
use dtu.Shell.{
  quote, quote_body, split, Splitter, start, push, split_step, split_loop, split_end, is_whitespace,
  single_quote, double_quote, backslash,
}

-- The characters that `split` treats in quotes and out of them.
abbrev pub is_plain : ℕ → Bool
is_plain c = not (c == backslash || c == single_quote || c == double_quote)

abbrev pub no_tick : ℕ → Bool
no_tick c = not (c == backslash || c == single_quote)

split_loop-append :
    (s : Splitter) (a b : Text) → split_loop s (a ++ b) ≡ split_loop (split_loop s a) b
unfolding split_loop
split_loop-append s [] b = refl
split_loop-append s (c ∷ a) b = split_loop-append (split_step s c) a b

-- Inside single quotes every character but a tick or a backslash is pushed.
split_loop-single :
    (a : Text) (s : Splitter)
    → all no_tick a ≡ true
    → s.escaped ≡ false
    → s.in_single ≡ true
    → s.in_double ≡ false
    → split_loop s a ≡ record s { into = s.into ++ a }
unfolding split_loop split_step
split_loop-single [] s h e q d = rw append-nil
split_loop-single (c ∷ a) s h e q d =
    ground (arith, split_loop-single a (push s c), append_assoc s.into (c ∷ []) a)

-- Outside quotes so is every character that is no quote, backslash or white space.
abbrev pub is_word : Text → Bool
is_word = all (λ c. is_plain c && not (is_whitespace c))

split_loop-word :
    (w : Text) (s : Splitter)
    → is_word w ≡ true
    → s.escaped ≡ false
    → s.in_single ≡ false
    → s.in_double ≡ false
    → split_loop s w ≡ record s { into = s.into ++ w }
unfolding split_loop split_step
split_loop-word [] s h e q d = rw append-nil
split_loop-word (c ∷ w) s h e q d =
    ground (arith, split_loop-word w (push s c), append_assoc s.into (c ∷ []) w)

quote_body-same : (s : Text) → all no_tick s ≡ true → quote_body s ≡ s
unfolding quote
quote_body-same [] h = refl
quote_body-same (c ∷ s) h = ground (arith, quote_body-same s)

-- The state inside a pair of single quotes, with the words so far.
abbrev quoting : List Text → Text → Splitter
quoting sp into = record {
  escaped = false;
  in_single = true;
  in_double = false;
  into = into;
  sp = sp;
}

-- One more part in single quotes is one more word.
split_loop-part :
    (a rest : Text) (sp : List Text)
    → all no_tick a ≡ true
    → split_loop (record start { sp = sp }) (single_quote ∷ (a ++ single_quote ∷ rest))
      ≡ split_loop (record start { sp = sp ++ a ∷ [] }) rest
split_loop-part a rest sp h =
    unfold split_loop split_step in
    (split_loop-append (quoting sp []) a (single_quote ∷ rest)
      ∙ rw (split_loop-single a (quoting sp []) h refl refl refl))

quote_body-append : (s u : Text) → quote_body (s ++ u) ≡ quote_body s ++ quote_body u
unfolding quote
quote_body-append [] u = refl
quote_body-append (c ∷ s) u = simp (quote_body-append s u, append_assoc)

-- A quoted text that holds no tick and no backslash is split into that one word.
pub split-quote : (s : Text) → all no_tick s ≡ true → split (quote s) ≡ some (s ∷ [])
unfolding split quote
split-quote s h = rw (quote_body-same s h) (ap split_end (split_loop-part s [] [] h))

-- The tick that `quote` writes between two parts is a word of its own for `split`.
split_loop-tick :
    (rest : Text) (sp : List Text)
    → split_loop (record start { sp = sp }) (codes "\"'\"" ++ rest)
      ≡ split_loop (record start { sp = sp ++ (single_quote ∷ []) ∷ [] }) rest
unfolding split_loop split_step
split_loop-tick rest sp = refl

-- A tick in a quoted text takes it apart: the text is split into what stands before the tick, the tick,
-- and what stands behind it, where a shell reads one word.
pub split-quote_tick :
    (a b : Text)
    → all no_tick a ≡ true
    → all no_tick b ≡ true
    → split (quote (a ++ single_quote ∷ b)) ≡ some (a ∷ (single_quote ∷ []) ∷ b ∷ [])
unfolding split quote
split-quote_tick a b ha hb = rw (quote_body-append a (single_quote ∷ b)) (
    rw (quote_body-same a ha) (
      rw (quote_body-same b hb) (
        rw (append_assoc a (codes "'\"'\"'" ++ b) (single_quote ∷ [])) (
          ap split_end (
            split_loop-part a (codes "\"'\"'" ++ (b ++ single_quote ∷ [])) [] ha
            ∙ split_loop-tick (single_quote ∷ (b ++ single_quote ∷ [])) (a ∷ [])
            ∙ split_loop-part b [] (a ∷ (single_quote ∷ []) ∷ []) hb)))))

-- Words with a space between them.
abbrev pub spaced : List Text → Text
spaced [] = []
spaced (w ∷ []) = w
spaced (w ∷ v ∷ ws) = w ++ b' ' ∷ spaced (v ∷ ws)

abbrev pub AreWords : List Text → Type 0
AreWords [] = Unit
AreWords (w ∷ ws) = (is_word w ≡ true) × (is_empty w ≡ false) × AreWords ws

split_loop-space :
    (w rest : Text) (sp : List Text)
    → is_empty w ≡ false
    → split_loop (record start { into = w; sp = sp }) (b' ' ∷ rest)
      ≡ split_loop (record start { sp = sp ++ w ∷ [] }) rest
unfolding split_loop split_step is_whitespace
split_loop-space [] rest sp h = cc
split_loop-space (c ∷ w) rest sp h = refl

split_end-word :
    (w : Text) (sp : List Text)
    → is_empty w ≡ false
    → split_end (record start { into = w; sp = sp }) ≡ some (sp ++ w ∷ [])
unfolding split_end
split_end-word [] sp h = cc
split_end-word (c ∷ w) sp h = refl

split_loop-spaced :
    (ws sp : List Text)
    → AreWords ws
    → split_end (split_loop (record start { sp = sp }) (spaced ws)) ≡ some (sp ++ ws)
split_loop-spaced [] sp h = unfold split_loop split_end in rw append-nil
split_loop-spaced (w ∷ []) sp h =
    rw (split_loop-word w (record start { sp = sp }) h.0 refl refl refl) (split_end-word w sp h.1)
split_loop-spaced (w ∷ v ∷ ws) sp h =
    rw (split_loop-append (record start { sp = sp }) w (b' ' ∷ spaced (v ∷ ws))) (
      rw (split_loop-word w (record start { sp = sp }) h.0 refl refl refl) (
        rw (split_loop-space w (spaced (v ∷ ws)) sp h.1) (
          split_loop-spaced (v ∷ ws) (sp ++ w ∷ []) h.2
          ∙ ap some (append_assoc sp (w ∷ []) (v ∷ ws)))))

-- Words that hold no quote, backslash or white space are read back from the line that has a space
-- between them.
pub split-spaced : (ws : List Text) → AreWords ws → split (spaced ws) ≡ some ws
unfolding split
split-spaced ws h = split_loop-spaced ws [] h
