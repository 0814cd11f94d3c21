-- ===== src/Setup/Progress.antt =====
-- `DeviceDatabase::setup` of dtu/src/db/device/setup.rs: the progress of the setup in the database of
-- the project's state. Which of the calls on that database fail, and what removing the device's
-- database does, are arguments.
use dtu.Prelude.{◌≡◌, Bool, true, false, not, ◌&&◌, ◌||◌, Option, none, some, arith, if◌then◌else◌}
use dtu.Setup.Rows.{SetupError, already_setup}
use dtu.Setup.Exec.{SetupResult, ok, err, World, Setup}

-- The steps `SQLDatabaseSetup` and `EmulatorDiff` of the progress.
pub record SetupState : Type 0 where
  pub sql_database_setup : Bool
  pub emulator_diff : Bool
  pub world : World

pub record MetaCalls : Type 0 where
  pub get_progress : Option SetupError
  pub reset_progress : Option SetupError
  pub reset_emulator_diff : Option SetupError
  pub update_progress : Option SetupError
  pub wipe : World → SetupResult World

abbrev pub SetupRun : Type 0
SetupRun = SetupResult (Unit {0}) × SetupState

module _ (calls : MetaCalls) (run : Setup (Unit {0})) where
  abbrev pub update : SetupState → Bool → Option SetupError → SetupRun
  update s completed none = (ok tt, record s { sql_database_setup = completed })
  update s completed (some e) = (err e, s)

  abbrev pub update_diff : SetupState → Option SetupError → SetupRun
  update_diff s none = (ok tt, record s { emulator_diff = false })
  update_diff s (some e) = (err e, s)

  -- The next step of a chain of calls with `?`.
  abbrev pub and_then : SetupRun → (SetupState → SetupRun) → SetupRun
  and_then (ok u, s) next = next s
  and_then (err e, s) next = (err e, s)

  abbrev pub wiped : SetupState → SetupResult World → SetupRun
  wiped s (ok w) = (ok tt, record s { world = w })
  wiped s (err e) = (err e, s)

  -- The task, and the progress if it succeeds.
  abbrev pub finish_run : SetupState → SetupResult (Unit {0}) × World → SetupRun
  finish_run s (ok u, w) = update (record s { world = w }) true calls.update_progress
  finish_run s (err e, w) = (err e, record s { world = w })

  unfoldable pub run_task : SetupState → SetupRun
  run_task s = finish_run s (run s.world)

  unfoldable pub force_again : SetupState → SetupRun
  force_again s = and_then (wiped s (calls.wipe s.world)) λ s1.
      and_then (update s1 false calls.reset_progress) λ s2. update_diff s2 calls.reset_emulator_diff

  abbrev pub setup_from : Bool → SetupState → SetupRun
  setup_from force s =
      if s.sql_database_setup
      then if force then and_then (force_again s) run_task else (err already_setup, s)
      else if force
      then and_then (wiped s (calls.wipe s.world)) run_task
      else run_task s

  abbrev pub setup_with : Bool → SetupState → Option SetupError → SetupRun
  setup_with force s none = setup_from force s
  setup_with force s (some e) = (err e, s)

  unfoldable pub setup : Bool → SetupState → SetupRun
  unfolding run_task force_again
  setup force s = setup_with force s calls.get_progress

  abbrev pub is_ok : SetupResult (Unit {0}) → Bool
  is_ok (ok u) = true
  is_ok (err e) = false

  -- The steps that have to succeed before a forced run forgets the progress.
  abbrev pub is_wiped : SetupResult World → Bool
  is_wiped (ok w) = true
  is_wiped (err e) = false

  abbrev pub is_none : Option SetupError → Bool
  is_none none = true
  is_none (some e) = false

  -- The setup counts as done exactly where this run succeeded, or where it was done before and the run
  -- ended before its progress was reset: without `force`, or by an error of a call until then.
  pub setup_progress :
      (force : Bool) (s : SetupState)
      → (setup force s).1.sql_database_setup ≡ (
          is_ok (setup force s).0
          || (s.sql_database_setup
              && not (
                  is_none calls.get_progress
                  && force
                  && is_wiped (calls.wipe s.world)
                  && is_none calls.reset_progress)))
  unfolding setup
  setup_progress force s = ground arith
