-- ===== src/Setup/Signatures/Counting.antt =====
-- When the count of updates says that every method has its signature.
use dtu.Prelude.{
  ℕ, suc, ◌+◌, ◌≤◌, ◌≡◌, refl, sym, ap, ◌∙◌, inl, inr, Bool, true, false, not, none, some, List, [],
  ◌∷◌, map, arith, if◌then◌else◌, ◌==◌, Bool-cases, length, same, all,
}
use dtu.Setup.Signatures.{
  MethodData, MethodHeader, SmaliLine, method_header, other_line, field_line, update_first, on_line,
  counted, inner_loop, on_parsed, try_update_method_signatures_inner, all_counted,
}
use dtu.Setup.Exec.{SetupResult, ok, World, Outside, pure, continue}
use dtu.Setup.Success.{cancel_check-Succeeds}

abbrev pub on_lines : List SmaliLine → ℕ × List MethodData → ℕ × List MethodData
on_lines [] s = s
on_lines (line ∷ lines) s = on_lines lines (on_line line s)

abbrev pub is_known : MethodData → Bool
is_known m = elim m.sig [ none ↦ false | some s ↦ true ]

unfoldable pub count_known : List MethodData → ℕ
count_known [] = 0
count_known (m ∷ ms) = (if is_known m then 1 else 0) + count_known ms

-- The header names no method that has its signature already.
abbrev pub is_fresh : MethodHeader → List MethodData → Bool
is_fresh hdr [] = true
is_fresh hdr (m ∷ ms) = if same m.name hdr.name then not (is_known m) else is_fresh hdr ms

-- No line is the second header of one method.
abbrev pub AreFresh : List SmaliLine → ℕ × List MethodData → Type 0
AreFresh [] s = Unit {0}
AreFresh (field_line fld ∷ lines) s = AreFresh lines s
AreFresh (other_line ∷ lines) s = AreFresh lines s
AreFresh (method_header hdr ∷ lines) s =
    (is_fresh hdr s.1 ≡ true) × AreFresh lines (on_line (method_header hdr) s)

update_first_lem :
    (hdr : MethodHeader) (ms : List MethodData)
    → is_fresh hdr ms ≡ true
    → (count_known (update_first hdr ms).1
        ≡ (if (update_first hdr ms).0 then 1 else 0) + count_known ms)
      × (length (update_first hdr ms).1 ≡ length ms)
unfolding count_known
update_first_lem hdr [] h = (omega arith, refl)
update_first_lem hdr (m ∷ ms) h = elim (Bool-cases (same m.name hdr.name)) [
  | inl e ↦ rw e (ground (arith, e, h), refl)
  | inr e ↦
      let (count, size) = update_first_lem hdr ms (ground (arith, e, h)) in
      rw e (omega (arith, count), ap suc size)
]

-- The count of updates is the count of signatures, and no method is lost.
abbrev pub Counts : ℕ × List MethodData → Type 0
Counts s = s.0 ≡ count_known s.1

counted_lem :
    (n known : ℕ) (u : Bool × List MethodData)
    → n ≡ known
    → count_known u.1 ≡ (if u.0 then 1 else 0) + known
    → Counts (counted n u)
counted_lem n known (true, ms) e h = omega (arith, e, h)
counted_lem n known (false, ms) e h = omega (arith, e, h)

on_lines-Counts :
    (lines : List SmaliLine) (s : ℕ × List MethodData)
    → AreFresh lines s
    → Counts s
    → Counts (on_lines lines s)
on_lines-Counts [] s fresh c = c
on_lines-Counts (field_line fld ∷ lines) s fresh c = on_lines-Counts lines s fresh c
on_lines-Counts (other_line ∷ lines) s fresh c = on_lines-Counts lines s fresh c
on_lines-Counts (method_header hdr ∷ lines) s (first, rest) c =
    on_lines-Counts lines (on_line (method_header hdr) s) rest (
      counted_lem s.0 (count_known s.1) (update_first hdr s.1) c (update_first_lem hdr s.1 first).0)

count_known-length : (ms : List MethodData) → count_known ms ≤ length ms
unfolding count_known
count_known-length [] = omega arith
count_known-length (m ∷ ms) = elim (Bool-cases (is_known m)) [
  | inl e ↦ let h = count_known-length ms in rw e (omega (arith, h))
  | inr e ↦ let h = count_known-length ms in rw e (omega (arith, h))
]

==-suc : (a b : ℕ) → (1 + a == suc b) ≡ (a == b)
==-suc a b = elim (Bool-cases (a == b)) [ inl e ↦ ground (arith, e) | inr e ↦ ground (arith, e) ]

-- All methods have a signature if as many have one as there are.
known_all : (ms : List MethodData) → (count_known ms == length ms) ≡ all is_known ms
unfolding count_known
known_all [] = ground arith
known_all (m ∷ ms) = elim (Bool-cases (is_known m)) [
  | inl e ↦ let h = known_all ms in rw e (==-suc (count_known ms) (length ms) ∙ h)
  | inr e ↦ let h = count_known-length ms in rw e (ground (arith, h))
]

module _ (o : Outside) (never : (n : ℕ) → o.cancel n ≡ false) where
  inner_loop_lem :
      (lines : List SmaliLine) (s : ℕ × List MethodData) (w : World)
      → (w' : World) × (inner_loop o (map some lines) s w ≡ (ok (on_lines lines s), w'))
  unfolding inner_loop
  inner_loop_lem [] s w =
      let (v, e) = (cancel_check-Succeeds o never).succeeded w in
      (v, ap (λ (r : SetupResult (Unit {0}) × World). continue r (λ _. pure s)) e)
  inner_loop_lem (line ∷ lines) s w =
      let (v, e) = (cancel_check-Succeeds o never).succeeded w in
      let (w', rest) = inner_loop_lem lines (on_line line s) v in
      (
        w',
        ap
              (λ (r : SetupResult (Unit {0}) × World). continue r (λ _ u.
                continue (on_parsed (some line) s u) (λ s'. inner_loop o (map some lines) s')))
              e
            ∙ rest,
      )

-- Reading the whole of an interface in which no method has two headers answers `true` exactly if every
-- method has its signature then: nothing may
-- cancel, and no method has one before.
pub signatures_all_known :
    (o : Outside)
    → ((n : ℕ) → o.cancel n ≡ false)
    → (lines : List SmaliLine) (methods : List MethodData) (w : World) → count_known methods ≡ 0
    → AreFresh lines (0, methods)
    → (try_update_method_signatures_inner o (ok (map some lines)) methods w).0
      ≡ ok (all is_known (on_lines lines (0, methods)).1, (on_lines lines (0, methods)).1)
unfolding try_update_method_signatures_inner
signatures_all_known o never lines methods w none_known fresh =
    let (w', e) = inner_loop_lem o never lines (0, methods) w in
    let counts = on_lines-Counts lines (0, methods) fresh (sym none_known) in
    let s = on_lines lines (0, methods) in
    ap
      (λ (r : SetupResult (ℕ × List MethodData) × World).
        (continue r (λ s. pure (all_counted s))).0)
      e
    ∙ ap (λ (b : Bool). ok (b, s.1)) (ap (λ (n : ℕ). n == length s.1) counts ∙ known_all s.1)
