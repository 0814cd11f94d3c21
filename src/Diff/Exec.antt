-- ===== src/Diff/Exec.antt =====
-- Tasks as actions on a world: the device's database, the events fired so far, and how often the
-- cancel flag was read. What was written before an error stays written.
use dtu.Prelude.{ℕ, ◌≡◌, refl, List, [], ◌∷◌, ◌++◌}
use dtu.Diff.Database.{DbError, DbResult, Reads, DeviceDatabase}
use dtu.Diff.Database
use dtu.Diff.Inserts.{DiffEvent}

-- `DiffError`.
pub data DiffError : Type 0 where
  cancelled : DiffError
  db : DbError → DiffError

pub data DiffResult {ℓ} (A : Type ℓ) : Type ℓ where
  ok : A → DiffResult A
  err : DiffError → DiffResult A

pub record World (S : Type 0) : Type 0 where
  pub state : S
  pub events : List DiffEvent
  pub checks : ℕ

abbrev pub Exec : Type 0 → Type 0 → Type 0
Exec S A = World S → DiffResult A × World S

module _ {S A : Type 0} where
  abbrev pub pure : A → Exec S A
  pure a w = (ok a, w)

  abbrev pub raise : DiffError → Exec S A
  raise e w = (err e, w)

  abbrev pub lift : DbResult A → Exec S A
  lift (Database.ok a) w = (ok a, w)
  lift (Database.err e) w = (err (db e), w)

module _ {S A B : Type 0} where
  abbrev pub continue : DiffResult A × World S → (A → Exec S B) → DiffResult B × World S
  continue (ok a, w) f = f a w
  continue (err e, w) f = (err e, w)

  infixl 5 ◌>>=◌ ◌>>◌
  abbrev pub ◌>>=◌ : Exec S A → (A → Exec S B) → Exec S B
  ◌>>=◌ m f w = continue (m w) f

  abbrev pub ◌>>◌ : Exec S A → Exec S B → Exec S B
  ◌>>◌ m n = ◌>>=◌ m (λ _. n)

  -- A chain that succeeds ran its first action to success, and then the rest.
  pub >>=-eq-ok :
      (m : Exec S A) (f : A → Exec S B) (w w' : World S) {b : B}
      → (m >>= f) w ≡ (ok b, w')
      → (a : A) × (v : World S) × (m w ≡ (ok a, v)) × (f a v ≡ (ok b, w'))
  >>=-eq-ok m f w w' {b} h = go (m w) refl h
    where
      go :
          (r : DiffResult A × World S)
          → m w ≡ r
          → continue r f ≡ (ok b, w')
          → (a : A) × (v : World S) × (m w ≡ (ok a, v)) × (f a v ≡ (ok b, w'))
      go (ok a, v) e k = (a, v, e, k)
      go (err x, v) e k = cc

module _ {S : Type 0} where
  -- `self.monitor.on_event(evt)`: the monitor sees the events in order.
  abbrev pub trigger : DiffEvent → Exec S (Unit {0})
  trigger evt w = (ok tt, record w { events = w.events ++ evt ∷ [] })

  -- A query on the device's database.
  abbrev pub query : {A : Type 0} → (S → DbResult A) → Exec S A
  query read w = lift (read w.state) w

  abbrev stored : World S → DbResult S → DiffResult (Unit {0}) × World S
  stored w (Database.ok s) = (ok tt, record w { state = s })
  stored w (Database.err e) = (err (db e), w)

  -- An insertion: a failed one changes nothing.
  abbrev pub insert : (S → DbResult S) → Exec S (Unit {0})
  insert add w = stored w (add w.state)

  -- `for x in xs { step(x)? }`.
  unfoldable pub for_each : {A : Type 0} → (A → Exec S (Unit {0})) → List A → Exec S (Unit {0})
  for_each step [] w = (ok tt, w)
  for_each step (x ∷ xs) w = continue (step x w) (λ _. for_each step xs)
