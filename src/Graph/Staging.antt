-- ===== src/Graph/Staging.antt =====
-- What the loading of one CSV file changes.
use dtu.Prelude.{
  append-nil, or_assoc, ℕ, ◌≡◌, refl, sym, ap, ap₂, ◌∙◌, inl, inr, Bool, true, false, ◌||◌, Option,
  none, some, List, [], ◌∷◌, ◌++◌, arith, Bool-cases, Text, same, same_iff,
}
use mathlib.Core.Path.{subst}
use dtu.Diff.Database.{DbError}
use dtu.Graph.{
  Csv, Load, World, Outside, GraphResult, ok, err, called, continue, executed, same_kind, same_load,
  strings, has_row, insert_or_ignore, load_at_once, has_load, of_kind, loaded_for, loads_at_once,
  load_staged, load_kind, update_load_status, load_csv,
}

abbrev pub AreDistinct : List Load → Type 0
AreDistinct [] = Unit {0}
AreDistinct (l ∷ loads) = (has_load l loads ≡ false) × AreDistinct loads

same_load_comm : (k l : Load) → same_load k l ≡ false → same_load l k ≡ false
same_load_comm (s, c) (t, d) h = elim (Bool-cases (same t s)) [
  | inl e ↦ let back = (same_iff s t).1 (sym ((same_iff t s).0 e)) in ground (arith, e, back, h)
  | inr e ↦ ground (arith, e)
]

or_left : (a b : Bool) → (a || b) ≡ false → a ≡ false
or_left true b h = h
or_left false b h = refl

or_right : (a b : Bool) → (a || b) ≡ false → b ≡ false
or_right true b h = cc
or_right false b h = h

pub has_load-append :
    (l : Load) (ks ls : List Load) → has_load l (ks ++ ls) ≡ (has_load l ks || has_load l ls)
has_load-append l [] ls = refl
has_load-append l (k ∷ ks) ls =
    ap (λ (b : Bool). same_load k l || b) (has_load-append l ks ls)
    ∙ sym (or_assoc (same_load k l) (has_load l ks) (has_load l ls))

pub AreDistinct-snoc :
    (l : Load) (loads : List Load)
    → has_load l loads ≡ false
    → AreDistinct loads
    → AreDistinct (loads ++ l ∷ [])
AreDistinct-snoc l [] h d = (refl, tt)
AreDistinct-snoc l (k ∷ loads) h (first, rest) =
    let other = or_left (same_load k l) (has_load l loads) h in
    let back = same_load_comm k l other in
    (
      has_load-append k loads (l ∷ []) ∙ ap₂ (λ (a b : Bool). a || (b || false)) first back,
      AreDistinct-snoc l loads (or_right (same_load k l) (has_load l loads) h) rest,
    )

abbrev pub own : List Load → List (Text × Load)
own [] = []
own ((source, csv) ∷ loads) = (source, (source, csv)) ∷ own loads

own-append : (ks ls : List Load) → own (ks ++ ls) ≡ own ks ++ own ls
own-append [] ls = refl
own-append (k ∷ ks) ls = ap (λ rows. (k.0, k) ∷ rows) (own-append ks ls)

-- Each row was loaded for the source of its file, the files are those whose loading is stored, and none is
-- stored twice.
pub record IsStored (w : World) : Type 0 where
  pub stored : w.rows ≡ own w.load_status
  pub once : AreDistinct w.load_status

-- A file whose loading is not stored has no row.
has_row-own : (l : Load) (loads : List Load) → has_row l (own loads) ≡ has_load l loads
has_row-own l [] = refl
has_row-own l ((source, csv) ∷ loads) = ground (arith, has_row-own l loads)

new_row :
    (l : Load) (w : World)
    → has_load l w.load_status ≡ false
    → IsStored w
    → has_row l w.rows ≡ false
new_row l w new h = ap (has_row l) h.stored ∙ has_row-own l w.load_status ∙ new

-- What is staged of another kind is as it was.
abbrev pub StagesOnly : Csv → World → World → Type 0
StagesOnly csv w v = (d : Csv) → same_kind csv d ≡ false → of_kind d v.staged ≡ of_kind d w.staged

pub record Same (csv : Csv) (w v : World) : Type 0 where
  pub same_rows : v.rows ≡ w.rows
  pub same_status : v.load_status ≡ w.load_status
  pub same_others : StagesOnly csv w v

-- The rows of the file are in the tables, and their status is not stored yet.
pub record Loaded (l : Load) (w v : World) : Type 0 where
  pub new_rows : v.rows ≡ w.rows ++ (l.0, l) ∷ []
  pub old_status : v.load_status ≡ w.load_status
  pub loaded_others : StagesOnly l.1 w v

unfoldable pub LoadOutcome : Load → World → GraphResult × World → Type 0
LoadOutcome l w (ok, v) = Loaded l w v
LoadOutcome l w (err e, v) = Same l.1 w v

-- The state behind a step that only stages rows of a kind.
pub record Stepped (csv : Csv) (w v : World) : Type 0 where
  pub is_stored : IsStored v
  pub others : StagesOnly csv w v

of_kind-append :
    (csv : Csv) (ks ls : List Load) → of_kind csv (ks ++ ls) ≡ of_kind csv ks ++ of_kind csv ls
of_kind-append csv [] ls = refl
of_kind-append csv (k ∷ ks) ls = elim (Bool-cases (same_kind k.1 csv)) [
  | inl e ↦ rw e (ap (λ loads. k ∷ loads) (of_kind-append csv ks ls))
  | inr e ↦ rw e (of_kind-append csv ks ls)
]

same_kind-same : (csv : Csv) → same_kind csv csv ≡ true
same_kind-same csv = ground arith

of_kind_other :
    (l : Load) (d : Csv) (staged : List Load)
    → same_kind l.1 d ≡ false
    → of_kind d (staged ++ l ∷ []) ≡ of_kind d staged
of_kind_other l d staged h = of_kind-append d staged (l ∷ []) ∙ rw h (append-nil (of_kind d staged))

of_kind_own :
    (l : Load) (staged : List Load)
    → of_kind l.1 staged ≡ []
    → of_kind l.1 (staged ++ l ∷ []) ≡ l ∷ []
of_kind_own l staged h = of_kind-append l.1 staged (l ∷ []) ∙ rw (h, same_kind-same l.1) refl

module _ (o : Outside) where
  rows_outcome :
      (l : Load) (w v : World) (e : Option DbError)
      → Same l.1 w v
      → LoadOutcome l w (executed e (λ u. record u { rows = u.rows ++ loaded_for l.0 (l ∷ []) }) v)
  unfolding LoadOutcome
  rows_outcome l w v none s = record {
    new_rows = ap (λ rows. rows ++ (l.0, l) ∷ []) s.same_rows;
    old_status = s.same_status;
    loaded_others = s.same_others;
  }
  rows_outcome l w v (some e) s = record {
    same_rows = s.same_rows;
    same_status = s.same_status;
    same_others = s.same_others;
  }

  strings_outcome :
      (l : Load) (w : World) (e : Option DbError)
      → has_row l w.rows ≡ false
      → LoadOutcome l w (executed e (λ u. record u { rows = insert_or_ignore l u.rows }) w)
  unfolding LoadOutcome
  strings_outcome l w none new = record {
    new_rows = rw new refl;
    old_status = refl;
    loaded_others = λ d other. refl;
  }
  strings_outcome l w (some e) new = record {
    same_rows = refl;
    same_status = refl;
    same_others = λ d other. refl;
  }

  at_once_outcome :
      (l : Load) (w : World)
      → (same_kind l.1 strings ≡ true → has_row l w.rows ≡ false)
      → LoadOutcome l w (load_at_once o l w)
  at_once_outcome l w new = elim (Bool-cases (same_kind l.1 strings)) [
    | inl e ↦ rw e (strings_outcome l w (o.load_fails w.calls) (new e))
    | inr e ↦ rw e (
        rows_outcome l w w (o.load_fails w.calls)
          (record { same_rows = refl; same_status = refl; same_others = λ d other. refl }))
  ]

  staged_outcome :
      (l : Load) (w v : World)
      → Same l.1 w v
      → of_kind l.1 v.staged ≡ l ∷ []
      → LoadOutcome l w (load_staged o l v)
  staged_outcome l w v s h = rw (load_staged, h) (rows_outcome l w v (o.load_fails v.calls) s)

  stage_outcome :
      (l : Load) (w : World) (e : Option DbError)
      → of_kind l.1 w.staged ≡ []
      → LoadOutcome l w (
          continue (executed e (λ u. record u { staged = u.staged ++ l ∷ [] }) w) (load_staged o l))
  unfolding LoadOutcome
  stage_outcome l w none h =
      staged_outcome l w (record (called w) { staged = w.staged ++ l ∷ [] })
        (record {
          same_rows = refl;
          same_status = refl;
          same_others = λ d other. of_kind_other l d w.staged other;
        })
        (of_kind_own l w.staged h)
  stage_outcome l w (some e) h = record {
    same_rows = refl;
    same_status = refl;
    same_others = λ d other. refl;
  }

  -- One file's rows are put in the tables, if nothing of its kind is staged before, nor there as strings.
  pub load_kind_outcome :
      (l : Load) (w : World)
      → of_kind l.1 w.staged ≡ []
      → (same_kind l.1 strings ≡ true → has_row l w.rows ≡ false)
      → LoadOutcome l w (load_kind o l w)
  load_kind_outcome l w h new = elim (Bool-cases (loads_at_once l.1)) [
    | inl e ↦ rw e (at_once_outcome l w new)
    | inr e ↦ rw e (stage_outcome l w (o.stage_fails w.calls) h)
  ]

module _ (o : Outside) (stores : (n : ℕ) → o.status_fails n ≡ none) where
  stored_after :
      (l : Load) (w : World) (r : GraphResult × World)
      → LoadOutcome l w r
      → has_load l w.load_status ≡ false
      → IsStored w
      → Stepped l.1 w (continue r (update_load_status o l)).1
  unfolding LoadOutcome
  stored_after l w (err e, v) s new h = record {
    is_stored = record {
      stored = s.same_rows ∙ h.stored ∙ ap own (sym s.same_status);
      once = subst AreDistinct (sym s.same_status) h.once;
    };
    others = s.same_others;
  }
  stored_after l w (ok, v) s new h = rw (stores v.calls) (record {
    is_stored = record {
      stored =
          s.new_rows
          ∙ ap (λ rows. rows ++ (l.0, l) ∷ []) h.stored
          ∙ sym (own-append w.load_status (l ∷ []))
          ∙ ap (λ (status : List Load). own (status ++ l ∷ [])) (sym s.old_status);
      once =
          subst (λ (status : List Load). AreDistinct (status ++ l ∷ [])) (sym s.old_status)
            (AreDistinct-snoc l w.load_status new h.once);
    };
    others = s.loaded_others;
  })

  pub load_csv-Stepped :
      (l : Load) (w : World)
      → has_load l w.load_status ≡ false
      → of_kind l.1 w.staged ≡ []
      → IsStored w
      → Stepped l.1 w (load_csv o l w).1
  unfolding load_csv
  load_csv-Stepped l w new clean h =
      stored_after l w (load_kind o l w) (load_kind_outcome o l w clean (λ _. new_row l w new h))
        new h
