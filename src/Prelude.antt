-- ===== src/Prelude.antt =====
-- The names that every module shares: the libraries', passed on, and those of four children.
mod Tests
mod Lists
mod Strings
mod Sorting
pub use Tests.*
pub use Lists.*
pub use Strings.*
pub use Sorting.*
unfoldable pub use Sorting.{insert_by, sort_by}
unfoldable pub use Strings.{same, split_once, rsplit_once}
pub use Prim.Native.Nat.{ℕ, zero, suc, ◌+◌, ◌-◌, ◌*◌, ◌/◌, ◌%◌, ◌^◌, ◌≤◌, ◌<◌}
pub use Prim.Native.String.{String}
pub use mathlib.Core.Path.{◌≡◌, refl, sym, ap, ap₂, ◌∙◌, fun_ext}
pub use mathlib.Core.Logic.{◌≢◌, ◌↔◌, ◌⊎◌, inl, inr}
pub use mathlib.Core.Bool.{Bool, true, false, not, ◌&&◌, ◌||◌}
pub use mathlib.Core.Option.{Option, none, some}
pub use mathlib.Core.List.{List, [], ◌∷◌, ◌++◌, map, append-nil, append_assoc, map-append}
pub use native.Mathlib.Omega.{arith}
