-- ===== src/Setup/Exec.antt =====
-- The setup's tasks as actions on the rows written, the events fired, and how often the cancel flag
-- was read. SQLite is not code of the repository: which insertions it refuses, and whether a
-- transaction commits, are functions of the rows that it holds.
use dtu.Prelude.{ℕ, ◌+◌, ◌≡◌, refl, Bool, Option, none, some, List, [], ◌∷◌, ◌++◌, if◌then◌else◌}
use dtu.Diff.Database.{DbError, unique_violation}
use dtu.Setup.Rows.{Row, SetupEvent, SetupError, cancelled, db}

pub data SetupResult {ℓ} (A : Type ℓ) : Type ℓ where
  ok : A → SetupResult A
  err : SetupError → SetupResult A

pub record World : Type 0 where
  pub rows : List Row
  pub events : List SetupEvent
  pub checks : ℕ

-- What the tasks do not decide: `cancel` is what the flag reads at each check.
pub record Outside : Type 0 where
  pub refuses : List Row → Row → Option DbError
  pub commit_fails : List Row → Option DbError
  pub new_id : List Row → ℕ
  pub cancel : ℕ → Bool

abbrev pub Setup : Type 0 → Type 0
Setup A = World → SetupResult A × World

module _ {A : Type 0} where
  abbrev pub pure : A → Setup A
  pure a w = (ok a, w)

  abbrev pub raise : SetupError → Setup A
  raise e w = (err e, w)

module _ {A B : Type 0} where
  abbrev pub continue : SetupResult A × World → (A → Setup B) → SetupResult B × World
  continue (ok a, w) f = f a w
  continue (err e, w) f = (err e, w)

  infixl 5 ◌>>=◌ ◌>>◌
  abbrev pub ◌>>=◌ : Setup A → (A → Setup B) → Setup B
  ◌>>=◌ m f w = continue (m w) f

  abbrev pub ◌>>◌ : Setup A → Setup B → Setup B
  ◌>>◌ m n = ◌>>=◌ m (λ _. n)

  -- A chain that succeeds ran its first action to success, and then the rest.
  pub >>=-eq-ok :
      (m : Setup A) (f : A → Setup B) (w w' : World) {b : B}
      → (m >>= f) w ≡ (ok b, w')
      → (a : A) × (v : World) × (m w ≡ (ok a, v)) × (f a v ≡ (ok b, w'))
  >>=-eq-ok m f w w' {b} h = go (m w) refl h
    where
      go :
          (r : SetupResult A × World)
          → m w ≡ r
          → continue r f ≡ (ok b, w')
          → (a : A) × (v : World) × (m w ≡ (ok a, v)) × (f a v ≡ (ok b, w'))
      go (ok a, v) e k = (a, v, e, k)
      go (err x, v) e k = cc

-- `on_event!`: the monitor sees the events in order.
abbrev pub on_event : SetupEvent → Setup (Unit {0})
on_event evt w = (ok tt, record w { events = w.events ++ evt ∷ [] })

-- `for x in xs { step(x)? }`.
unfoldable pub for_each : {A : Type 0} → (A → Setup (Unit {0})) → List A → Setup (Unit {0})
for_each step [] w = (ok tt, w)
for_each step (x ∷ xs) w = continue (step x w) (λ _. for_each step xs)

module _ (o : Outside) where
  unfoldable pub cancel_check : Setup (Unit {0})
  cancel_check w =
      (if o.cancel w.checks then err cancelled else ok tt, record w { checks = w.checks + 1 })

  abbrev pub inserted : World → Row → Option DbError → SetupResult (Unit {0}) × World
  inserted w row none = (ok tt, record w { rows = w.rows ++ row ∷ [] })
  inserted w row (some e) = (err (db e), w)

  unfoldable pub insert : Row → Setup (Unit {0})
  insert row w = inserted w row (o.refuses w.rows row)

  abbrev pub accept_unique : SetupResult (Unit {0}) × World → SetupResult (Unit {0}) × World
  accept_unique (err (db unique_violation), w) = (ok tt, w)
  accept_unique r = r

  -- An insertion whose unique violation is no error.
  unfoldable pub insert_or_ignore : Row → Setup (Unit {0})
  unfolding insert
  insert_or_ignore row w = accept_unique (insert row w)

  -- `with_transaction`: the rows written before an error do not stay, the events do.
  abbrev pub committed :
      {A : Type 0} → List Row → A → World → Option DbError → SetupResult A × World
  committed before a w none = (ok a, w)
  committed before a w (some e) = (err (db e), record w { rows = before })

  abbrev pub finish : {A : Type 0} → List Row → SetupResult A × World → SetupResult A × World
  finish before (ok a, w) = committed before a w (o.commit_fails w.rows)
  finish before (err e, w) = (err e, record w { rows = before })

  unfoldable pub with_transaction : {A : Type 0} → Setup A → Setup A
  with_transaction body w = finish w.rows (body w)
