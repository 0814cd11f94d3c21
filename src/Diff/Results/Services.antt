-- ===== src/Diff/Results/Services.antt =====
-- The comparison of one system service and its methods, and what a refused row does to a whole run.
use dtu.Prelude.{
  ◌≡◌, refl, ap, ap₂, ◌∙◌, retain, if◌then◌else◌, Text, fun_ext, inl, inr, Bool, true, false,
  Option, none, some, List, [], ◌∷◌, ◌++◌, arith, same,
}
use dtu.UnknownBool.{UnknownBool, ub_unknown, ub_false, from_bool}
use dtu.Diff.Rows.{SystemService, SystemServiceMethod}
use dtu.Diff.Inserts
use dtu.Diff.Inserts.{InsertSystemServiceMethodDiff, InsertSystemServiceDiff}
use dtu.Diff.Database
use dtu.Diff.Database.{DbResult, DbError, DbResult-cases, not_found}
use dtu.Diff.Exec.{World, Exec, ok, insert, for_each}
use dtu.Diff.SystemServices
use dtu.Diff.SystemServices.{
  SystemServiceDiffTask, method_not_in_diff, or_empty, hash_matches, find_last, get_method_def,
  update_method_diff, add_method_not_in_diff,
}

-- Rows that are stored in order, up to the first that the database refuses.
abbrev store : {S T Ins : Type 0} → (Ins → S → DbResult S) → (T → Ins) → List T → S → DbResult S
store add row [] s = Database.ok s
store add row (x ∷ xs) s = elim (add (row x) s) [
  | Database.ok s' ↦ store add row xs s'
  | Database.err e ↦ Database.err e
]

for_each-insert :
    {S T Ins : Type 0} (add : Ins → S → DbResult S) (row : T → Ins) (xs : List T) (w : World S)
    (s : S)
    → store add row xs w.state ≡ Database.ok s
    → for_each (λ x. insert (add (row x))) xs w ≡ (ok tt, record w { state = s })
unfolding for_each
for_each-insert add row [] w s h = ground (arith, h)
for_each-insert add row (x ∷ xs) w s h = elim (DbResult-cases (add (row x) w.state)) [
  | inl (s1, e) ↦ ground (arith, e, for_each-insert add row xs (record w { state = s1 }) s)
  | inr (x', e) ↦ ground (arith, e)
]

-- The text that methods are matched by.
abbrev pub text_of : Option Text → Text
text_of none = []
text_of (some txt) = txt

abbrev pub def_text : SystemServiceMethod → Text
def_text m = m.name ++ (text_of m.signature ++ text_of m.return_type)

abbrev pub last_of {ℓ} : {A : Type ℓ} → List A → Option A
last_of [] = none
last_of (x ∷ xs) = elim (last_of xs) [ some y ↦ some y | none ↦ some x ]

abbrev pub counterpart : List SystemServiceMethod → SystemServiceMethod → Option SystemServiceMethod
counterpart others m = last_of (retain (λ a. same (def_text a) (def_text m)) others)

abbrev pub same_text : Option Text → Option Text → UnknownBool
same_text none b = ub_unknown
same_text (some a) none = ub_unknown
same_text (some a) (some b) = from_bool (same a b)

text_of_lem : (o : Option Text) → or_empty o ≡ text_of o
text_of_lem none = refl
text_of_lem (some txt) = refl

def_text_lem : (m : SystemServiceMethod) → get_method_def m ≡ def_text m
unfolding get_method_def
def_text_lem m =
    ap₂ (λ (a b : Text). m.name ++ (a ++ b)) (text_of_lem m.signature) (text_of_lem m.return_type)

found_or_none {ℓ} : {A : Type ℓ} (r : Option A) → elim r [ some y ↦ some y | none ↦ none ] ≡ r
found_or_none none = refl
found_or_none (some y) = refl

last_of_if {ℓ} :
    {A : Type ℓ} (b : Bool) (x : A) (xs : List A)
    → elim (last_of xs) [ some y ↦ some y | none ↦ if b then some x else none ]
      ≡ last_of (if b then x ∷ xs else xs)
last_of_if true x xs = refl
last_of_if false x xs = found_or_none (last_of xs)

find_last_lem {ℓ} :
    {A : Type ℓ} (p : A → Bool) (xs : List A) → find_last p xs ≡ last_of (retain p xs)
unfolding find_last
find_last_lem p [] = refl
find_last_lem {A = A} p (x ∷ xs) =
    ap (λ (r : Option A). elim r [ some y ↦ some y | none ↦ if p x then some x else none ])
      (find_last_lem p xs)
    ∙ last_of_if (p x) x (retain p xs)

counterpart_lem :
    (others : List SystemServiceMethod) (m : SystemServiceMethod)
    → find_last (λ a. same (get_method_def a) (get_method_def m)) others ≡ counterpart others m
counterpart_lem others m =
    ap (λ (d : SystemServiceMethod → Text). find_last (λ a. same (d a) (d m)) others)
      (fun_ext def_text_lem)
    ∙ find_last_lem (λ a. same (def_text a) (def_text m)) others

same_text_lem :
    (a b : Option Text)
    → elim a [
      | none ↦ ub_unknown
      | some dev ↦ elim b [ none ↦ ub_unknown | some diff ↦ from_bool (same dev diff) ]
    ]
      ≡ same_text a b
same_text_lem none b = refl
same_text_lem (some a) none = refl
same_text_lem (some a) (some b) = refl

hash_matches_lem :
    (m o : SystemServiceMethod) → hash_matches m o ≡ same_text m.smalisa_hash o.signature
unfolding hash_matches
hash_matches_lem m o = same_text_lem m.smalisa_hash o.signature

module _ {S : Type 0} (t : SystemServiceDiffTask S) where
  -- The row of a method that the other database lacks.
  abbrev pub absent_row : SystemServiceMethod → InsertSystemServiceMethodDiff
  absent_row m = record {
    method = m.id;
    diff_source = t.source.id;
    exists_in_diff = false;
    hash_matches_diff = ub_false;
  }

  -- The row of a method, with its counterpart or without one.
  abbrev pub method_entry :
      SystemServiceMethod → Option SystemServiceMethod → InsertSystemServiceMethodDiff
  method_entry m none = absent_row m
  method_entry m (some o) = record {
    method = m.id;
    diff_source = t.source.id;
    exists_in_diff = true;
    hash_matches_diff = same_text m.smalisa_hash o.signature;
  }

  abbrev pub method_row :
      List SystemServiceMethod → SystemServiceMethod → InsertSystemServiceMethodDiff
  method_row others m = method_entry m (counterpart others m)

  -- The rows as the task makes them.
  abbrev task_entry :
      SystemServiceMethod → Option SystemServiceMethod → InsertSystemServiceMethodDiff
  task_entry m none = method_not_in_diff t m
  task_entry m (some o) = record {
    method = m.id;
    diff_source = t.source.id;
    exists_in_diff = true;
    hash_matches_diff = hash_matches m o;
  }

  abbrev found : List SystemServiceMethod → SystemServiceMethod → Option SystemServiceMethod
  found others m = find_last (λ a. same (get_method_def a) (get_method_def m)) others

  abbrev task_row : List SystemServiceMethod → SystemServiceMethod → InsertSystemServiceMethodDiff
  task_row others m = task_entry m (found others m)

  task_entry_lem :
      (m : SystemServiceMethod) (o : Option SystemServiceMethod) → task_entry m o ≡ method_entry m o
  task_entry_lem m none = refl
  task_entry_lem m (some x) =
      ap
        (λ (hash : UnknownBool). record {
          method = m.id;
          diff_source = t.source.id;
          exists_in_diff = true;
          hash_matches_diff = hash;
        })
        (hash_matches_lem m x)

  task_row_lem : (others : List SystemServiceMethod) → task_row others ≡ method_row others
  task_row_lem others =
      fun_ext (λ m.
        ap (task_entry m) (counterpart_lem others m) ∙ task_entry_lem m (counterpart others m))

  update_method_diff_lem :
      (m : SystemServiceMethod) (o : Option SystemServiceMethod)
      → update_method_diff t m o
        ≡ insert (t.database.add_system_service_method_diff (task_entry m o))
  unfolding update_method_diff add_method_not_in_diff
  update_method_diff_lem m none = refl
  update_method_diff_lem m (some x) = refl

  method_steps :
      (others : List SystemServiceMethod)
      → ◌≡◌ {A = SystemServiceMethod → Exec S (Unit {0})}
          (λ m. update_method_diff t m (found others m))
          (λ m. insert (t.database.add_system_service_method_diff (task_row others m)))
  method_steps others = fun_ext (λ m. update_method_diff_lem m (found others m))

  abbrev pub row_of : Bool → InsertSystemServiceDiff
  row_of exists = record {
    system_service = t.system_service.id;
    diff_source = t.source.id;
    exists_in_diff = exists;
  }

  abbrev pub with_event : World S → S → Bool → World S
  with_event w s exists = record w {
    state = s;
    events =
        w.events ++ Inserts.system_service t.system_service.id t.system_service.name exists ∷ [];
  }

  -- Where the queries succeed and the database takes the rows, a service that the other database
  -- lacks gets a row and each of its methods gets one, all of them marked as not there, and one
  -- event.
  pub run_new :
      (w : World S) (s1 s2 : S) (methods : List SystemServiceMethod)
      → t.diff_db.get_system_service_by_name t.system_service.name ≡ Database.err not_found
      → t.database.add_system_service_diff (row_of false) w.state ≡ Database.ok s1
      → (t.database.reads s1).get_system_service_methods_by_service_id t.system_service.id
        ≡ Database.ok methods
      → store t.database.add_system_service_method_diff absent_row methods s1 ≡ Database.ok s2
      → SystemServices.run t w ≡ (ok tt, with_event w s2 false)
  unfolding SystemServices.run
  run_new w s1 s2 methods ho h1 hm h2 = ground (
    arith,
    ho,
    h1,
    hm,
    for_each-insert t.database.add_system_service_method_diff absent_row methods
        (with_event w s1 false) s2 h2,
  )

  known_rows :
      (w : World S) (other : SystemService) (s1 s2 : S) (methods others : List SystemServiceMethod)
      → t.diff_db.get_system_service_by_name t.system_service.name ≡ Database.ok other
      → t.database.add_system_service_diff (row_of true) w.state ≡ Database.ok s1
      → (t.database.reads s1).get_system_service_methods_by_service_id t.system_service.id
        ≡ Database.ok methods
      → t.diff_db.get_system_service_methods_by_service_id other.id ≡ Database.ok others
      → store t.database.add_system_service_method_diff (task_row others) methods s1
        ≡ Database.ok s2
      → SystemServices.run t w ≡ (ok tt, with_event w s2 true)
  unfolding SystemServices.run
  known_rows w other s1 s2 methods others ho h1 hm hd h2 = ground (
    arith,
    ho,
    h1,
    hm,
    hd,
    method_steps others,
    for_each-insert t.database.add_system_service_method_diff (task_row others) methods
        (record w { state = s1 }) s2 h2,
  )

  -- Where the queries succeed and the database takes the rows, a service that both databases have
  -- gets a row and an event that say so, and each of its methods gets a row: of the other's methods
  -- whose name, signature and return type, written one behind the other, give the same text, the
  -- last is its counterpart, and the row says whether its hash is that one's signature, unknown
  -- where either is missing; without a counterpart the row says that there is none.
  pub run_known :
      (w : World S) (other : SystemService) (s1 s2 : S) (methods others : List SystemServiceMethod)
      → t.diff_db.get_system_service_by_name t.system_service.name ≡ Database.ok other
      → t.database.add_system_service_diff (row_of true) w.state ≡ Database.ok s1
      → (t.database.reads s1).get_system_service_methods_by_service_id t.system_service.id
        ≡ Database.ok methods
      → t.diff_db.get_system_service_methods_by_service_id other.id ≡ Database.ok others
      → store t.database.add_system_service_method_diff (method_row others) methods s1
        ≡ Database.ok s2
      → SystemServices.run t w ≡ (ok tt, with_event w s2 true)
  run_known w other s1 s2 methods others ho h1 hm hd h2 =
      known_rows w other s1 s2 methods others ho h1 hm hd (
        ap
          (λ (row : SystemServiceMethod → InsertSystemServiceMethodDiff).
            store t.database.add_system_service_method_diff row methods s1)
          (task_row_lem others)
        ∙ h2)
