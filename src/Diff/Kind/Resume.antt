-- ===== src/Diff/Kind/Resume.antt =====
-- What a run of one kind leaves to do, by the laws of the table: nothing where it succeeded, and the
-- items from the refused one on where it did not.
use dtu.Prelude.{
  ℕ, ◌≡◌, refl, sym, ap, ◌∙◌, fun_ext, inl, inr, Bool, true, not, ◌&&◌, ◌||◌, List, [], ◌∷◌, ◌++◌,
  map, append-nil, arith, length, all, retain, retain-append,
}
use dtu.Diff.Database
use dtu.Diff.Database.{DbResult, DbError, DbResult-cases, contains_id, TableLaws}
use dtu.Diff.Inserts.{DiffEvent}
use dtu.Diff.Exec.{World, ok, err, db}
use dtu.Diff.Components.{get_diffable}
use dtu.Diff.Kind.{
  Kind, insert_rows, undone, diffable, run_kind, finished, stopped, run_kind-ok, run_kind-err,
}

module _ {T : Type 0} (get_id : T → ℕ) where
  abbrev pub ids_of : List T → List ℕ
  ids_of = map get_id

  retain-all : (p q : T → Bool) (xs : List T) → ((x : T) → p x ≡ q x) → retain p xs ≡ retain q xs
  retain-all p q xs h = ap (λ r. retain r xs) (fun_ext h)

  retain-twice :
      (p q : T → Bool) (xs : List T) → retain p (retain q xs) ≡ retain (λ x. p x && q x) xs
  retain-twice p q [] = refl
  retain-twice p q (x ∷ xs) = ground (arith, retain-twice p q xs)

  retain-keeps : (p : T → Bool) (xs : List T) → all p xs ≡ true → retain p xs ≡ xs
  retain-keeps p [] h = refl
  retain-keeps p (x ∷ xs) h = ground (arith, retain-keeps p xs)

  abbrev in_front : List T → T → Bool
  in_front xs y = contains_id (ids_of xs) (get_id y)

  contains-cons_mono :
      (y : T) (xs zs : List T) → all (in_front xs) zs ≡ true → all (in_front (y ∷ xs)) zs ≡ true
  contains-cons_mono y xs [] h = refl
  contains-cons_mono y xs (z ∷ zs) h = ground (arith, contains-cons_mono y xs zs)

  all-in_front : (xs : List T) → all (in_front xs) xs ≡ true
  all-in_front [] = refl
  all-in_front (x ∷ xs) = ground (arith, all-in_front xs, contains-cons_mono x xs xs)

  retain-drops : (p : T → Bool) (xs : List T) → all p xs ≡ true → retain (λ x. not (p x)) xs ≡ []
  retain-drops p [] h = refl
  retain-drops p (x ∷ xs) h = ground (arith, retain-drops p xs)

  -- None of the later items has the number of an item of the front.
  abbrev pub AreApart : List T → List T → Type 0
  AreApart xs ys = all (λ y. not (in_front xs y)) ys ≡ true

  retain-back :
      (xs ys : List T) → AreApart xs ys → retain (λ y. not (in_front xs y)) (xs ++ ys) ≡ ys
  retain-back xs ys h =
      retain-append (λ y. not (in_front xs y)) xs ys
      ∙ rw (retain-drops (in_front xs) xs (all-in_front xs))
          (retain-keeps (λ y. not (in_front xs y)) ys h)

  -- Items that had no diff are taken out of those left once they have one.
  pub left_over :
      (everything xs ys : List T) (ids ids' : List ℕ)
      → ((id : ℕ) → contains_id ids' id ≡ (contains_id (ids_of xs) id || contains_id ids id))
      → retain (λ x. not (contains_id ids (get_id x))) everything ≡ xs ++ ys
      → AreApart xs ys
      → retain (λ x. not (contains_id ids' (get_id x))) everything ≡ ys
  left_over everything xs ys ids ids' grown split apart =
      retain-all (λ x. not (contains_id ids' (get_id x)))
        (λ x. not (in_front xs x) && not (contains_id ids (get_id x))) everything
        (λ x. ground (arith, grown (get_id x)))
      ∙ sym (
          retain-twice (λ x. not (in_front xs x)) (λ x. not (contains_id ids (get_id x)))
            everything)
      ∙ rw split (retain-back xs ys apart)

module _ {S T Ins : Type 0} (k : Kind S T Ins) {done_of : ℕ → S → DbResult (List ℕ)}
    {item source : Ins → ℕ} (src : ℕ) (laws : TableLaws k.get_all done_of k.add item source)
    (row_item : (x : T) → item (k.row x) ≡ k.get_id x)
    (row_source : (x : T) → source (k.row x) ≡ src) where
  -- The diffs after the rows of `xs` were stored.
  abbrev Grown : List T → S → S → List ℕ → Type 0
  Grown xs s s' ids =
      (k.get_all s' ≡ k.get_all s)
      × ((ids' : List ℕ) × (done_of src s' ≡ Database.ok ids')
          × ((id : ℕ)
              → contains_id ids' id ≡ (contains_id (map k.get_id xs) id || contains_id ids id)))

  insert_one-Grown :
      (x : T) (s s' : S) (ids : List ℕ)
      → k.add (k.row x) s ≡ Database.ok s'
      → done_of src s ≡ Database.ok ids
      → Grown (x ∷ []) s s' ids
  insert_one-Grown x s s' ids h d =
      let d' : done_of (source (k.row x)) s ≡ Database.ok ids = rw (row_source x) d in
      (
        laws.keeps_all (k.row x) s s' h,
        (
          laws.done_ids (k.row x) s s' ids,
          rw (row_source x) at (laws.reads_done (k.row x) s s' ids h d'),
          λ id. ground (arith, laws.adds_item (k.row x) s s' ids id h d', row_item x),
        ),
      )

  pub insert_rows-Grown :
      (xs : List T) (s s' : S) (ids : List ℕ)
      → insert_rows k xs s ≡ Database.ok s'
      → done_of src s ≡ Database.ok ids
      → Grown xs s s' ids
  unfolding insert_rows
  insert_rows-Grown [] s s' ids h d = (ground arith, (ids, ground arith, λ id. refl))
  insert_rows-Grown (x ∷ xs) s s' ids h d = elim (DbResult-cases (k.add (k.row x) s)) [
    | inl (s1, e) ↦
        let (all1, grown1) = insert_one-Grown x s s1 ids e d in
        let (ids1, d1, grow1) = grown1 in
        let (all2, grown2) = insert_rows-Grown xs s1 s' ids1 (ground (arith, e)) d1 in
        let (ids2, d2, grow2) = grown2 in
        (all2 ∙ all1, (ids2, d2, λ id. ground (arith, grow1 id, grow2 id)))
    | inr (x', e) ↦ absurd (ground (arith, e))
  ]

  -- After the rows of `xs` are stored, the items that have no diff are those that stood behind them.
  pub undone-insert_rows :
      (everything xs ys : List T) (s s' : S) (ids : List ℕ)
      → k.get_all s ≡ Database.ok everything
      → done_of src s ≡ Database.ok ids
      → undone k ids everything ≡ xs ++ ys
      → AreApart k.get_id xs ys
      → insert_rows k xs s ≡ Database.ok s'
      → (ids' : List ℕ) × (k.get_all s' ≡ Database.ok everything)
        × (done_of src s' ≡ Database.ok ids')
        × (undone k ids' everything ≡ ys)
  undone-insert_rows everything xs ys s s' ids ha hd hu hp hi =
      let (all1, grown) = insert_rows-Grown xs s s' ids hi hd in
      let (ids', d', grow) = grown in
      (ids', all1 ∙ ha, d', left_over k.get_id everything xs ys ids ids' grow hu hp)

  -- A run whose rows the database takes leaves nothing to do.
  pub run_kind_complete :
      (started : ℕ → DiffEvent) (ended : DiffEvent) (w : World S) (everything : List T)
      (ids : List ℕ) (s : S)
      → k.get_done ≡ done_of src
      → k.get_all w.state ≡ Database.ok everything
      → k.get_done w.state ≡ Database.ok ids
      → insert_rows k (undone k ids everything) w.state ≡ Database.ok s
      → (run_kind k started ended w
          ≡ (ok tt, finished k started ended w (undone k ids everything) s))
        × (diffable k (finished k started ended w (undone k ids everything) s)
            ≡ (ok [], finished k started ended w (undone k ids everything) s))
  unfolding get_diffable
  run_kind_complete started ended w everything ids s hk ha hd hi =
      let d : done_of src w.state ≡ Database.ok ids = ap (λ f. f w.state) (sym hk) ∙ hd in
      let (ids', a', d', left) =
        undone-insert_rows everything (undone k ids everything) [] w.state s ids ha d
          (sym (append-nil (undone k ids everything))) refl hi in
      let e : k.get_done s ≡ Database.ok ids' = ap (λ f. f s) hk ∙ d' in
      (run_kind-ok k started ended w everything ids s ha hd hi, ground (arith, a', e, left))

  -- A run that ended at a row leaves that item and those behind it, and the next run takes up there.
  pub run_kind_resume :
      (started : ℕ → DiffEvent) (ended : DiffEvent) (w : World S) (everything : List T)
      (ids : List ℕ) (xs ys : List T) (x : T) (s : S) (e : DbError)
      → k.get_done ≡ done_of src
      → k.get_all w.state ≡ Database.ok everything
      → k.get_done w.state ≡ Database.ok ids
      → undone k ids everything ≡ xs ++ x ∷ ys
      → AreApart k.get_id xs (x ∷ ys)
      → insert_rows k xs w.state ≡ Database.ok s
      → k.add (k.row x) s ≡ Database.err e
      → (run_kind k started ended w
          ≡ (err (db e), stopped k started (length (xs ++ x ∷ ys)) w xs s))
        × (diffable k (stopped k started (length (xs ++ x ∷ ys)) w xs s)
            ≡ (ok (x ∷ ys), stopped k started (length (xs ++ x ∷ ys)) w xs s))
  unfolding get_diffable
  run_kind_resume started ended w everything ids xs ys x s e hk ha hd hu hp hi hx =
      let d : done_of src w.state ≡ Database.ok ids = ap (λ f. f w.state) (sym hk) ∙ hd in
      let (ids', a', d', left) =
        undone-insert_rows everything xs (x ∷ ys) w.state s ids ha d hu hp hi in
      let q : k.get_done s ≡ Database.ok ids' = ap (λ f. f s) hk ∙ d' in
      (
        run_kind-err k started ended w everything ids xs ys x s e ha hd hu hi hx,
        ground (arith, a', q, left),
      )
