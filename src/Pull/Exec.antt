-- ===== src/Pull/Exec.antt =====
-- The actions of the pull: the rows of `decompile_status`, the files pulled, the events fired. What the
-- device, the database and the external tools answer is not code of the repository: each answer is a
-- function of the number of calls made before.
use dtu.Prelude.{ℕ, ◌+◌, Bool, true, false, Option, none, some, List, [], ◌∷◌, ◌++◌, Text}
use dtu.Diff.Database.{DbError}
use dtu.DevicePath.{DevicePath}

-- `DecompileStatus` of dtu/src/db/meta/models.rs.
pub record DecompileStatus : Type 0 where
  pub id : ℕ
  pub device_path : DevicePath
  pub host_path : Option Text
  pub decompiled : Bool
  pub decompile_attempts : ℕ

-- `Error`, without the texts; `cancelled` is the one of its base errors that the code tells apart.
pub data PullError : Type 0 where
  install_apktool_framework invalid_path cancelled base decompile_error : PullError
  db_error : DbError → PullError

pub data Event : Type 0 where
  framework_started framework_ended apks_started apks_ended finding_directories : Event
  directory_found directory_done pull_success pull_failed : DevicePath → Event
  pulling : DevicePath → Text → Event
  decompiling decompile_success decompile_failed : Text → Event

abbrev pub pulling_done : DevicePath → Bool → Event
pulling_done device true = pull_success device
pulling_done device false = pull_failed device

abbrev pub decompile_done : Text → Bool → Event
decompile_done local true = decompile_success local
decompile_done local false = decompile_failed local

pub data PullResult {ℓ} (A : Type ℓ) : Type ℓ where
  ok : A → PullResult A
  err : PullError → PullResult A

pub record World : Type 0 where
  pub statuses : List DecompileStatus
  pub host_files : List Text
  pub events : List Event
  pub completed : Bool
  pub calls : ℕ

-- `leaves_file` says of a failed transfer whether it leaves a file behind.
pub record Outside : Type 0 where
  pub cancel : ℕ → Bool
  pub db_fails : ℕ → Option DbError
  pub new_id : List DecompileStatus → ℕ
  pub transfer : ℕ → DevicePath → Text → Option PullError
  pub leaves_file : ℕ → Bool
  pub decompile : ℕ → Text → PullResult Bool
  pub attempt : ℕ → Option PullError

abbrev pub Action : Type 0 → Type 0
Action A = World → PullResult A × World

abbrev pub called : World → World
called w = record w { calls = w.calls + 1 }

module _ {A : Type 0} where
  abbrev pub pure : A → Action A
  pure a w = (ok a, w)

  abbrev pub raise : PullError → Action A
  raise e w = (err e, w)

  abbrev pub result : PullResult A → Action A
  result r w = (r, w)

module _ {A B : Type 0} where
  abbrev pub continue : PullResult A × World → (A → Action B) → PullResult B × World
  continue (ok a, w) f = f a w
  continue (err e, w) f = (err e, w)

  -- Goes on with what there is, an error too.
  abbrev pub settle : PullResult A × World → (PullResult A → Action B) → PullResult B × World
  settle (r, w) f = f r w

  infixl 5 ◌>>=◌ ◌>>◌
  abbrev pub ◌>>=◌ : Action A → (A → Action B) → Action B
  ◌>>=◌ m f w = continue (m w) f

  abbrev pub ◌>>◌ : Action A → Action B → Action B
  ◌>>◌ m n = ◌>>=◌ m (λ _. n)

abbrev pub send_event : Event → Action (Unit {0})
send_event evt w = (ok tt, record w { events = w.events ++ evt ∷ [] })

abbrev pub of_error : Option PullError → PullResult (Unit {0})
of_error none = ok tt
of_error (some e) = err e

abbrev pub of_db_error : {A : Type 0} → Option DbError → A → PullResult A
of_db_error none a = ok a
of_db_error (some e) a = err (db_error e)

module _ (o : Outside) where
  -- `cancelled()`.
  abbrev pub was_cancelled : Action Bool
  was_cancelled w = (ok (o.cancel w.calls), called w)

  -- A call that only succeeds or fails: making a directory, running a tool, moving files.
  abbrev pub attempted : Action (Unit {0})
  attempted w = (of_error (o.attempt w.calls), called w)
