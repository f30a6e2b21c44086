-- ===== src/Prelude.antt =====
-- What every module shares: the library names in use, tests on numbers, lists as tables.
mod Tests
mod Lists
mod Tables
mod OrderBy
mod Keys
mod Pages
mod Integers
mod Texts
mod Results
unfoldable pub use Tables.*
unfoldable pub use OrderBy.*
unfoldable pub use Texts.*
pub use Keys.*
pub use Pages.*
pub use Integers.*
pub use Results.*
pub use Tests.*
pub use Lists.*
pub use Prim.Native.Nat.{ℕ, zero, suc, ◌+◌, ◌-◌, ◌*◌, ◌/◌, ◌%◌, ◌^◌, ◌≤◌, ◌<◌, min, max}
pub use mathlib.Core.Path.{◌≡◌, refl, sym, ap, ◌∙◌, fun_ext}
pub use mathlib.Core.Logic.{◌≢◌, ◌↔◌, ◌⊎◌, inl, inr}
pub use mathlib.Core.Bool.{Bool, true, false, ◌&&◌, ◌||◌, not}
pub use mathlib.Core.Option.{Option, none, some}
pub use mathlib.Core.List.{List, [], ◌∷◌, ◌++◌, map}
pub use native.Mathlib.Omega.{arith}
