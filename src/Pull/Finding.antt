-- ===== src/Pull/Finding.antt =====
-- What the pull looks for on the device: the directories and files of the frameworks, and the APKs.
pub mod Once
use dtu.Prelude.{
  ℕ, zero, suc, ◌+◌, ◌-◌, ◌*◌, ◌/◌, ◌%◌, ◌^◌, ◌≤◌, ◌<◌, String, ◌≡◌, refl, sym, ap, ap₂, ◌∙◌,
  fun_ext, ◌≢◌, ◌↔◌, ◌⊎◌, inl, inr, Bool, true, false, not, ◌&&◌, ◌||◌, Option, none, some, List,
  [], ◌∷◌, ◌++◌, map, append-nil, append_assoc, map-append, arith, ltb, leb, ◌==◌, if◌then◌else◌,
  ==_iff, ==-refl, Bool-cases, Option-cases, length, take, drop, all, is_empty, retain,
  length-append, all-append, retain-append, Text, codes, same, same_iff, same_refl, contains,
  contains-append, starts_with_char, ends_with_char, ends_with_char-append, starts_with,
  starts_with-append, trim_start_matches, trim_end_matches, split_once, rsplit_once, split_once_lem,
  split_once-append, rsplit_once-none, rsplit_once-append, rsplit_once-eq-none, rsplit_once-eq-some,
}
use dtu.DevicePath.{DevicePath, new}
use dtu.Pull.FileTypes.{is_apk}
use dtu.Pull.Files.{NormalizedDeviceFile, from_device_path, FileMap, receive_all}
use dtu.Pull.Exec.{
  PullError, cancelled, Event, finding_directories, directory_found, directory_done, PullResult, ok,
  err, World, Outside, Action, called, pure, result, continue, settle, ◌>>=◌, ◌>>◌, send_event,
  attempted,
}
use dtu.Pull.Status.{exists}

-- `str::contains`.
abbrev pub has_text : Text → Text → Bool
has_text sub [] = starts_with [] sub
has_text sub (c ∷ cs) = starts_with (c ∷ cs) sub || has_text sub cs

-- Of the APKs only those of the framework are wanted.
abbrev pub is_wanted : NormalizedDeviceFile → Bool
is_wanted nf = not (is_apk nf.file_type && not (has_text (codes "framework") nf.fname))

abbrev pub keep_wanted :
    Option NormalizedDeviceFile → List NormalizedDeviceFile → List NormalizedDeviceFile
keep_wanted none files = files
keep_wanted (some nf) files = if is_wanted nf then nf ∷ files else files

-- The files of a directory that its listing has, line by line.
unfoldable pub wanted_files : Text → List Text → List NormalizedDeviceFile
unfolding from_device_path
wanted_files dir [] = []
wanted_files dir (line ∷ lines) =
    if is_empty line
    then wanted_files dir lines
    else keep_wanted (from_device_path line dir) (wanted_files dir lines)

-- The lines of `find_apks` that are sent on: those not seen before.
unfoldable pub unseen : List Text → List Text → List Text
unseen seen [] = []
unseen seen (apk_path ∷ lines) = elim (is_empty apk_path || exists apk_path seen) [
  | true ↦ unseen seen lines
  | false ↦ apk_path ∷ unseen (apk_path ∷ seen) lines
]

-- A directory of the frameworks and the lines that `find` gives for it.
pub record Listing : Type 0 where
  pub dir : Text
  pub lines : List Text

module _ (o : Outside) where
  -- `cancelable_send` of each value; a full channel makes it wait, and a cancellation ends the callbacks.
  unfoldable pub send_each : {A : Type 0} → List A → World → List A × World
  send_each [] w = ([], w)
  send_each (x ∷ xs) w = elim (o.cancel w.calls) [
    | true ↦ ([], called w)
    | false ↦ let (sent, v) = send_each xs (called w) in (x ∷ sent, v)
  ]

  -- What was sent before `find` ended, and how it ended.
  abbrev pub ended : {A : Type 0} → List A × World → (PullResult (Unit {0}) × List A) × World
  ended (sent, w) = let (r, v) = attempted o w in ((r, sent), v)

  unfoldable pub find_apks : List Text → World → (PullResult (Unit {0}) × List Text) × World
  unfolding send_each unseen
  find_apks lines w = ended (send_each (unseen [] lines) w)

  unfoldable pub find_files :
      Listing → World → (PullResult (Unit {0}) × List NormalizedDeviceFile) × World
  unfolding send_each wanted_files
  find_files l w = ended (send_each (wanted_files l.dir l.lines) w)

  abbrev pub fired : Event → World → World
  fired evt w = record w { events = w.events ++ evt ∷ [] }

  abbrev pub and_files :
      List NormalizedDeviceFile
      → (PullResult (Unit {0}) × List NormalizedDeviceFile) × World
      → (PullResult (Unit {0}) × List NormalizedDeviceFile) × World
  and_files sent ((r, files), w) = ((r, sent ++ files), w)

  abbrev pub after_dir :
      (World → (PullResult (Unit {0}) × List NormalizedDeviceFile) × World)
      → (PullResult (Unit {0}) × List NormalizedDeviceFile) × World
      → (PullResult (Unit {0}) × List NormalizedDeviceFile) × World
  after_dir next ((ok u, sent), w) = and_files sent (next w)
  after_dir next ((err e, sent), w) = ((err e, sent), w)

  abbrev pub dir_done :
      Text
      → (PullResult (Unit {0}) × List NormalizedDeviceFile) × World
      → (PullResult (Unit {0}) × List NormalizedDeviceFile) × World
  dir_done dir (found, w) = (found, fired (directory_done (new dir)) w)

  -- The directory thread, and the files that it sends.
  unfoldable pub dir_thread :
      List Listing → World → (PullResult (Unit {0}) × List NormalizedDeviceFile) × World
  unfolding find_files
  dir_thread [] w = ((if o.cancel w.calls then err cancelled else ok tt, []), called w)
  dir_thread (l ∷ listings) w = elim (o.cancel w.calls) [
    | true ↦ ((err cancelled, []), called w)
    | false ↦
        after_dir (dir_thread listings)
          (dir_done l.dir (find_files l (fired (directory_found (new l.dir)) (called w))))
  ]

  -- The file thread reads the flag before it waits for the next file and while it waits.
  unfoldable pub file_thread :
      List NormalizedDeviceFile → List DevicePath × FileMap → Action (List DevicePath × FileMap)
  unfolding receive_all
  file_thread [] s w =
      if o.cancel w.calls
      then (err cancelled, called w)
      else if o.cancel (w.calls + 1)
      then (err cancelled, called (called w))
      else (ok s, called (called w))
  file_thread (nf ∷ files) s w =
      if o.cancel w.calls
      then (err cancelled, called w)
      else if o.cancel (w.calls + 1)
      then (err cancelled, called (called w))
      else file_thread files (receive_all (nf ∷ []) s) (called (called w))

  abbrev pub dirs_then_files :
      (PullResult (Unit {0}) × List NormalizedDeviceFile) × World
      → PullResult (List DevicePath × FileMap) × World
  dirs_then_files ((ok u, files), w) = file_thread files ([], []) w
  dirs_then_files ((err e, files), w) = (err e, w)

  -- The listings are those of the directories that `find_framework_dirs` sends before it ends.
  unfoldable pub find_applicable_framework_files : List Listing → Action (List DevicePath × FileMap)
  unfolding dir_thread file_thread
  find_applicable_framework_files listings =
      send_event finding_directories >> attempted o >> λ w. dirs_then_files (dir_thread listings w)
