-- ===== src/Common.antt =====
-- What the modules of this library share: names of the standard libraries, Boolean tests and lists
-- over the native numbers, signed integers, and a result type for code that raises.
mod Tests
mod Lists
pub mod Slices
pub mod Int
pub mod Results
pub mod Maps
pub mod Dict
pub mod Totals
pub mod Words
pub mod Texts
pub mod Logs
pub mod Rounding
pub use Tests.*
pub use Lists.*
pub use Prim.Native.Nat.{ℕ, zero, suc, ◌+◌, ◌-◌, ◌*◌, ◌/◌, ◌%◌, ◌^◌, ◌≤◌, ◌<◌, min, max}
pub use mathlib.Core.Path.{◌≡◌, refl, sym, ap, ap₂, subst, ◌∙◌}
pub use mathlib.Core.Logic.{◌≢◌, ◌↔◌, ◌⊎◌, inl, inr}
pub use mathlib.Core.Bool.{Bool, true, false, not, ◌&&◌, ◌||◌}
pub use mathlib.Core.Option.{Option, none, some}
pub use mathlib.Core.List.{List, [], ◌∷◌, ◌++◌, map}
pub use native.Mathlib.Omega.{arith}
