-- ===== src/Common.antt =====
-- Names that all modules share: library names passed on, tests on numbers, lists, the ordered
-- dictionary of `collections`, exceptions, and transition systems.
mod Tests
mod Lists
mod Exceptions
mod Words
pub mod OrderedDict
pub mod Transition
unfoldable pub use Tests.*
unfoldable pub use Lists.*
pub use Exceptions.*
pub use Words.*
pub use Prim.Native.Nat.{ℕ, zero, suc, ◌+◌, ◌-◌, ◌*◌, ◌/◌, ◌%◌, ◌^◌, ◌≤◌, ◌<◌, min}
pub use mathlib.Core.Path.{◌≡◌, refl, sym, ap, ◌∙◌, subst}
pub use mathlib.Core.Logic.{◌≢◌, ◌↔◌, ◌⊎◌, inl, inr}
pub use mathlib.Core.Bool.{Bool, true, false, not, ◌&&◌, ◌||◌}
pub use mathlib.Core.Option.{Option, none, some}
pub use mathlib.Core.List.{List, [], ◌∷◌, ◌++◌, map, append_assoc, append-nil}
pub use native.Mathlib.Omega.{arith}
