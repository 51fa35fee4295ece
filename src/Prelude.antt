-- ===== src/Prelude.antt =====
-- The names that the other modules share: those of the libraries, passed on, and those of the
-- children, which hold Boolean tests, lists measured by native numbers, signed integers and the
-- equality interface of keys.
mod Tests
mod Lists
mod Sorting
mod Counting
mod Rowwise
mod Keys
mod Results
mod Decimal
mod Splitting
pub mod Int
pub use Tests.*
pub use Lists.*
unfoldable pub use Sorting.*
pub use Counting.*
pub use Rowwise.*
pub use Keys.*
pub use Results.*
unfoldable pub use Decimal.*
unfoldable pub use Splitting.*
pub use Prim.Native.Nat.{ℕ, zero, suc, ◌+◌, ◌-◌, ◌*◌, ◌/◌, ◌%◌, ◌^◌, ◌≤◌, ◌<◌, min, max}
pub use mathlib.Core.Path.{◌≡◌, refl, sym, ap, subst, ◌∙◌}
pub use mathlib.Core.Logic.{◌≢◌, ◌↔◌, ◌⊎◌, inl, inr}
pub use mathlib.Core.Bool.{Bool, true, false, not, ◌&&◌, ◌||◌}
pub use mathlib.Core.Option.{Option, none, some}
pub use mathlib.Core.List.{List, [], ◌∷◌, ◌++◌, map}
pub use native.Mathlib.Omega.{arith}
