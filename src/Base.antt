-- ===== src/Base.antt =====
-- What the modules share: names of the libraries, passed on, Boolean tests, lists indexed by
-- native numbers, signed integers, runs of code over a state, and bit fields.
mod Tests
mod Lists
mod Int
mod Runs
mod Strings
pub mod Bits
pub use Tests.*
pub use Lists.*
pub use Int.*
pub use Runs.*
pub use Strings.*
pub use Prim.Native.Nat.{ℕ, zero, suc, ◌+◌, ◌-◌, ◌*◌, ◌/◌, ◌%◌, ◌^◌, ◌≤◌, ◌<◌}
pub use mathlib.Core.Path.{◌≡◌, refl, sym, ap, ◌∙◌, subst}
pub use mathlib.Core.Logic.{◌≢◌, ◌↔◌, ◌⊎◌, inl, inr}
pub use mathlib.Core.Bool.{Bool, true, false, not, ◌&&◌, ◌||◌}
pub use mathlib.Core.Option.{Option, none, some}
pub use mathlib.Core.List.{List, [], ◌∷◌, ◌++◌, map}
pub use native.Mathlib.Omega.{arith}
