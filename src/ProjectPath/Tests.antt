-- ===== src/ProjectPath/Tests.antt =====
-- Runs on the paths of the source's own tests, and the theorems at concrete paths.
use dtu.Prelude.{Option, none, same, if◌then◌else◌, ◌≡◌, refl, true, some, Text, codes}
use dtu.Escape.{replace_char}
use dtu.ProjectPath.{squash_path}
use dtu.ProjectPath.RoundTrip.{is_dots, unsquash_name, unsquash_path-squash_path}

abbrev home : Text
home = codes "/tmp/test"

squash_path_runs :
    squash_path (some home) (codes "/tmp/test/wow/such") true ≡ some (codes "wow#such")
unfolding squash_path replace_char
squash_path_runs = refl

-- Of a name without a separator.
abbrev file_name : Text → Option Text
file_name name = if is_dots name then none else some name

unsquash_path-squash_path_example :
    unsquash_name file_name (some home) (squash_path (some home) (codes "/tmp/test/wow/such") true)
    ≡ some (codes "/tmp/test/wow/such")
unfolding same
unsquash_path-squash_path_example =
    unsquash_path-squash_path file_name (λ name plain h. rw h refl) home (codes "wow/such")
      (λ e. cc e) refl refl refl refl
