-- ===== src/LineStream/Pieces.antt =====
-- The pieces of a text between its separators, and where its last separator is.
use dtu.Prelude.{
  ℕ, zero, suc, ◌+◌, ◌≤◌, ◌≡◌, refl, ap, ◌⊎◌, inl, inr, false, not, none, some, List, [], ◌∷◌, ◌++◌,
  arith, ◌==◌, ==_iff, ==-refl, Bool-cases, length, take, drop, is_empty, retain, retain-append,
  Text, contains,
}
use dtu.LineStream.{pieces, rposition}

module _ (sep : ℕ) where
  pieces-cons : (s : Text) → (l : Text) × (ls : List Text) × (pieces sep s ≡ l ∷ ls)
  unfolding pieces
  pieces-cons [] = ([], [], refl)
  pieces-cons (c ∷ s) = elim (Bool-cases (c == sep)) [
    | inl h ↦ ([], pieces sep s, rw h refl)
    | inr h ↦ let (l, ls, e) = pieces-cons s in (c ∷ l, ls, rw h (rw e refl))
  ]

  -- A separator ends a piece.
  pub pieces-append : (a b : Text) → pieces sep (a ++ sep ∷ b) ≡ pieces sep a ++ pieces sep b
  unfolding pieces
  pieces-append [] b = ground (arith, ==-refl sep)
  pieces-append (c ∷ a) b = let (l, ls, e) = pieces-cons a in ground (arith, pieces-append a b, e)

  -- The lines of a text: its pieces but for the empty ones.
  abbrev pub lines_of : Text → List Text
  lines_of s = retain (λ l. not (is_empty l)) (pieces sep s)

  pub lines_of-append : (a b : Text) → lines_of (a ++ sep ∷ b) ≡ lines_of a ++ lines_of b
  lines_of-append a b =
      rw (pieces-append a b) (retain-append (λ l. not (is_empty l)) (pieces sep a) (pieces sep b))

  pub lines_of-nil : lines_of [] ≡ []
  unfolding pieces
  lines_of-nil = refl

  -- What the search for the last separator gives.
  abbrev pub Found : ℕ → Text → Type 0
  Found pos whole =
      ((rposition sep (drop pos whole) ≡ none) × (contains whole sep ≡ false))
      ⊎ ((i : ℕ) × (a : Text) × (rposition sep (drop pos whole) ≡ some i)
          × (take (pos + i + 1) whole ≡ a ++ sep ∷ [])
          × (contains (drop (pos + i + 1) whole) sep ≡ false))

  rposition-Found : (s : Text) → Found 0 s
  unfolding rposition
  rposition-Found [] = inl (refl, refl)
  rposition-Found (c ∷ s) = elim (rposition-Found s) [
    | inr (i, a, r, t, d) ↦ inr (suc i, c ∷ a, rw r refl, ground (arith, t), ground (arith, d))
    | inl (r, d) ↦ elim (Bool-cases (c == sep)) [
      | inl h ↦ inr (0, [], ground (arith, r, h), ground (arith, (==_iff c sep).0 h), d)
      | inr h ↦ inl (ground (arith, r, h), ground (arith, h, d))
    ]
  ]

  -- A search behind a part that holds no separator finds the last of the whole text.
  pub rposition-Found_behind :
      (pos : ℕ) (old new : Text)
      → contains old sep ≡ false
      → pos ≤ length old
      → Found pos (old ++ new)
  rposition-Found_behind zero old new h k = rposition-Found (old ++ new)
  rposition-Found_behind (suc pos) [] new h k = absurd (omega (arith, k))
  rposition-Found_behind (suc pos) (x ∷ old) new h k =
      elim (rposition-Found_behind pos old new (ground (arith, h)) (omega (arith, k))) [
        | inl (r, d) ↦ inl (r, ground (arith, h, d))
        | inr (i, a, r, t, d) ↦ inr (i, x ∷ a, r, ground (arith, t), ground (arith, d))
      ]

  pub take-drop : (n : ℕ) (s : Text) → take n s ++ drop n s ≡ s
  take-drop zero s = refl
  take-drop (suc n) [] = refl
  take-drop (suc n) (x ∷ s) = ap (◌∷◌ x) (take-drop n s)

  pub take-length : (s : Text) → (take (length s) s ≡ s) × (drop (length s) s ≡ [])
  take-length [] = (refl, refl)
  take-length (x ∷ s) = let (t, d) = take-length s in (ap (◌∷◌ x) t, d)
