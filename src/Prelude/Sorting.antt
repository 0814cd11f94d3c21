-- ===== src/Prelude/Sorting.antt =====
-- The stable sort of a list by a number of each element, as `slice::sort` of Rust.
use Prim.Native.Nat.{ℕ, ◌≤◌}
use mathlib.Core.Path.{◌≡◌, refl, sym, ap, ◌∙◌}
use mathlib.Core.Logic.{inl, inr}
use mathlib.Core.List.{List, [], ◌∷◌, ◌++◌}
use native.Mathlib.Omega.{arith}
use dtu.Prelude.Tests.{leb, if◌then◌else◌, Bool-cases}

module _ {A : Type 0} (key : A → ℕ) where
  unfoldable pub insert_by : A → List A → List A
  insert_by x [] = x ∷ []
  insert_by x (y ∷ ys) = if leb (key x) (key y) then x ∷ y ∷ ys else y ∷ insert_by x ys

  unfoldable pub sort_by : List A → List A
  unfolding insert_by
  sort_by [] = []
  sort_by (x ∷ xs) = insert_by x (sort_by xs)

  -- Behind all that it does not precede.
  insert_last : A → List A → List A
  insert_last x [] = x ∷ []
  insert_last x (y ∷ ys) = if leb (key y) (key x) then y ∷ insert_last x ys else x ∷ y ∷ ys

  insert_by-insert_last :
      (x y : A) (zs : List A) → insert_by y (insert_last x zs) ≡ insert_last x (insert_by y zs)
  unfolding insert_by insert_last
  insert_by-insert_last x y [] = ground arith
  insert_by-insert_last x y (z ∷ zs) = ground (arith, insert_by-insert_last x y zs)

  sort_by-snoc : (xs : List A) (x : A) → sort_by (xs ++ x ∷ []) ≡ insert_last x (sort_by xs)
  unfolding sort_by insert_last
  sort_by-snoc [] x = refl
  sort_by-snoc (y ∷ xs) x =
      ap (insert_by y) (sort_by-snoc xs x) ∙ insert_by-insert_last x y (sort_by xs)

  abbrev pub IsBelow : ℕ → List A → Type 0
  IsBelow n [] = Unit {0}
  IsBelow n (x ∷ xs) = n ≤ key x

  abbrev pub IsSorted : List A → Type 0
  IsSorted [] = Unit {0}
  IsSorted (x ∷ xs) = IsBelow (key x) xs × IsSorted xs

  insert_by-IsBelow :
      (n : ℕ) (x : A) (ys : List A) → n ≤ key x → IsBelow n ys → IsBelow n (insert_by x ys)
  unfolding insert_by
  insert_by-IsBelow n x [] h b = h
  insert_by-IsBelow n x (y ∷ ys) h b = elim (Bool-cases (leb (key x) (key y))) [
    | inl e ↦ rw e h
    | inr e ↦ rw e b
  ]

  insert_by-IsSorted : (x : A) (ys : List A) → IsSorted ys → IsSorted (insert_by x ys)
  unfolding insert_by
  insert_by-IsSorted x [] s = (tt, tt)
  insert_by-IsSorted x (y ∷ ys) (b, s) = elim (Bool-cases (leb (key x) (key y))) [
    | inl e ↦ rw e (ground (arith, e), (b, s))
    | inr e ↦ rw e (insert_by-IsBelow (key y) x ys (ground (arith, e)) b, insert_by-IsSorted x ys s)
  ]

  pub sort_by-IsSorted : (xs : List A) → IsSorted (sort_by xs)
  unfolding sort_by
  sort_by-IsSorted [] = tt
  sort_by-IsSorted (x ∷ xs) = insert_by-IsSorted x (sort_by xs) (sort_by-IsSorted xs)

  insert_by_below : (x : A) (ys : List A) → IsBelow (key x) ys → insert_by x ys ≡ x ∷ ys
  unfolding insert_by
  insert_by_below x [] b = refl
  insert_by_below x (y ∷ ys) b = ground arith

  pub sort_by_sorted : (xs : List A) → IsSorted xs → sort_by xs ≡ xs
  unfolding sort_by
  sort_by_sorted [] s = refl
  sort_by_sorted (x ∷ xs) (b, s) = rw (sort_by_sorted xs s) (insert_by_below x xs b)

  -- To sort after each arrival is to sort once at the end.
  pub sort_by-sort_by-snoc :
      (xs : List A) (x : A) → sort_by (sort_by xs ++ x ∷ []) ≡ sort_by (xs ++ x ∷ [])
  sort_by-sort_by-snoc xs x =
      sort_by-snoc (sort_by xs) x
      ∙ ap (insert_last x) (sort_by_sorted (sort_by xs) (sort_by-IsSorted xs))
      ∙ sym (sort_by-snoc xs x)
