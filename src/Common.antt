-- ===== src/Common.antt =====
-- The names that the models share: the libraries', passed on, and those of their children.
mod Tests
mod Lists
mod Maps
mod ByteStrings
mod Sorting
mod Least
mod Numerals
mod Held
pub mod Int
pub use Tests.*
pub use Lists.*
pub use Maps.*
pub use ByteStrings.*
pub use Sorting.*
pub use Least.*
pub use Numerals.*
pub use Held.*
pub use Prim.Native.Nat.{ℕ, zero, suc, ◌+◌, ◌-◌, ◌*◌, ◌/◌, ◌%◌, ◌^◌, ◌≤◌, ◌<◌}
pub use Prim.Native.String.{String}
pub use mathlib.Core.Path.{◌≡◌, refl, sym, ap, ◌∙◌, subst}
pub use mathlib.Core.Logic.{◌≢◌, ◌↔◌, ◌⊎◌, inl, inr}
pub use mathlib.Core.Bool.{Bool, true, false, not, ◌&&◌, ◌||◌}
pub use mathlib.Core.Option.{Option, none, some}
pub use mathlib.Core.List.{List, [], ◌∷◌, ◌++◌, map}
pub use native.Mathlib.Omega.{arith}
