-- ===== src/Graph/Loads.antt =====
-- Steps of an import that succeed, with the CSV files that they store as loaded.
use dtu.Prelude.{
  ℕ, ◌≡◌, refl, ap, ◌∙◌, true, Option, none, List, [], ◌∷◌, ◌++◌, arith, Text, same_iff, inl, inr,
  Bool, Bool-cases, false, ◌||◌, same,
}
use mathlib.Core.Path.{subst}
use dtu.Diff.Database.{DbError}
use dtu.Graph.{
  classes, supers, interfaces, class_fields, methods, calls, method_field_access, strings,
  method_strings, all_csvs, Csv, SetupEvent, Load, World, GraphResult, ok, err, Action, called,
  continue, ◌>>◌, executed, on_event, same_load, has_load,
}

abbrev pub HasAll : List Load → World → Type 0
HasAll [] w = Unit {0}
HasAll (l ∷ loads) w = (has_load l w.load_status ≡ true) × HasAll loads w

abbrev pub Grows : World → World → Type 0
Grows w v = (l : Load) → has_load l w.load_status ≡ true → has_load l v.load_status ≡ true

abbrev pub loads_of : Text → List Csv → List Load
loads_of source [] = []
loads_of source (csv ∷ csvs) = (source, csv) ∷ loads_of source csvs

-- Every file of the directories' sources.
abbrev pub all_loads : List (Text × Text) → List Load
all_loads [] = []
all_loads ((source, dir) ∷ dirs) = loads_of source all_csvs ++ all_loads dirs

HasAll-append : (ks ls : List Load) (w : World) → HasAll ks w → HasAll ls w → HasAll (ks ++ ls) w
HasAll-append [] ls w a b = b
HasAll-append (k ∷ ks) ls w (a, rest) b = (a, HasAll-append ks ls w rest b)

pub HasAll-Grows : (loads : List Load) (w v : World) → Grows w v → HasAll loads w → HasAll loads v
HasAll-Grows [] w v g h = tt
HasAll-Grows (l ∷ loads) w v g (h, rest) = (g l h, HasAll-Grows loads w v g rest)

pub same_load-same : (l : Load) → same_load l l ≡ true
same_load-same (s, c) = let e = (same_iff s s).1 refl in ground (arith, e)

-- The step succeeds, keeps what is stored as loaded, and stores these files as loaded.
pub record Does (loads : List Load) (w : World) (r : GraphResult × World) : Type 0 where
  pub succeeds : r.0 ≡ ok
  pub grows : Grows w r.1
  pub has_all : HasAll loads r.1

pub record Loads (loads : List Load) (m : Action) : Type 0 where
  pub does : (w : World) → Does loads w (m w)

pub continue-Does :
    (ks ls : List Load) (w : World) (r : GraphResult × World) (n : Action)
    → Does ks w r
    → Loads ls n
    → Does (ks ++ ls) w (continue r n)
continue-Does ks ls w (ok, v) n d k =
    let e = k.does v in
    record {
      succeeds = e.succeeds;
      grows = λ l h. e.grows l (d.grows l h);
      has_all = HasAll-append ks ls (n v).1 (HasAll-Grows ks v (n v).1 e.grows d.has_all) e.has_all;
    }
continue-Does ks ls w (err e, v) n d k = cc d.succeeds

pub >>-Loads :
    (ks ls : List Load) (m n : Action) → Loads ks m → Loads ls n → Loads (ks ++ ls) (m >> n)
>>-Loads ks ls m n a b = record { does = λ w. continue-Does ks ls w (m w) n (a.does w) b }

pub on_event-Loads : (evt : SetupEvent) → Loads [] (on_event evt)
on_event-Loads evt = record {
  does = λ w. record { succeeds = refl; grows = λ l h. h; has_all = tt };
}

-- A call that changes no loading status.
pub silent-Loads :
    (fails : ℕ → Option DbError) (change : World → World)
    → ((n : ℕ) → fails n ≡ none)
    → ((w : World) → (change w).load_status ≡ w.load_status)
    → Loads [] (λ w. executed (fails w.calls) change w)
silent-Loads fails change never keeps = record {
  does = λ w. rw (never w.calls) (record {
    succeeds = refl;
    grows = λ l h. ap (has_load l) (keeps (called w)) ∙ h;
    has_all = tt;
  });
}

abbrev pub is_source : Text → List (Text × Text) → Bool
is_source source [] = false
is_source source ((name, dir) ∷ dirs) = same name source || is_source source dirs

-- No kind of file is left out.
every_csv :
    (source : Text) (csv : Csv) (w : World)
    → HasAll (loads_of source all_csvs) w
    → has_load (source, csv) w.load_status ≡ true
every_csv source classes w h = h.0
every_csv source supers w h = h.1.0
every_csv source interfaces w h = h.1.1.0
every_csv source class_fields w h = h.1.1.1.0
every_csv source methods w h = h.1.1.1.1.0
every_csv source calls w h = h.1.1.1.1.1.0
every_csv source method_field_access w h = h.1.1.1.1.1.1.0
every_csv source strings w h = h.1.1.1.1.1.1.1.0
every_csv source method_strings w h = h.1.1.1.1.1.1.1.1.0

HasAll-left : (ks ls : List Load) (w : World) → HasAll (ks ++ ls) w → HasAll ks w
HasAll-left [] ls w h = tt
HasAll-left (k ∷ ks) ls w (h, rest) = (h, HasAll-left ks ls w rest)

HasAll-right : (ks ls : List Load) (w : World) → HasAll (ks ++ ls) w → HasAll ls w
HasAll-right [] ls w h = h
HasAll-right (k ∷ ks) ls w (h, rest) = HasAll-right ks ls w rest

pub all_loads-has_load :
    (dirs : List (Text × Text)) (source : Text) (csv : Csv) (w : World)
    → is_source source dirs ≡ true
    → HasAll (all_loads dirs) w
    → has_load (source, csv) w.load_status ≡ true
all_loads-has_load [] source csv w is h = cc is
all_loads-has_load ((name, dir) ∷ dirs) source csv w is h = elim (Bool-cases (same name source)) [
  | inl e ↦
      let named = HasAll-left (loads_of name all_csvs) (all_loads dirs) w h in
      subst (λ (s : Text). has_load (s, csv) w.load_status ≡ true) ((same_iff name source).0 e)
        (every_csv name csv w named)
  | inr e ↦
      all_loads-has_load dirs source csv w (ground (arith, is, e))
        (HasAll-right (loads_of name all_csvs) (all_loads dirs) w h)
]
