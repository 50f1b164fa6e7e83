-- ===== src/Base.antt =====
-- The names that the other modules share: the libraries', passed on, and those of the children:
-- Boolean tests (`Tests`), lists over the native numbers (`Lists`), C's unsigned arithmetic and
-- `&` with a mask of ones (`Words`), finite maps as functions (`Store`)
-- exclusive or (`Xor`) and C's `int` (`Int`).
mod Tests
mod Lists
mod Words
mod Store
mod Int
mod Xor
pub use Tests.*
pub use Lists.*
pub use Words.*
pub use Store.*
pub use Int.*
pub use Xor.*
pub use Prim.Native.Nat.{ℕ, zero, suc, ◌+◌, ◌-◌, ◌*◌, ◌/◌, ◌%◌, ◌^◌, ◌≤◌, ◌<◌}
pub use mathlib.Core.Path.{◌≡◌, refl, sym, ap, ap₂, ◌∙◌}
pub use mathlib.Core.Logic.{◌≢◌, ◌↔◌, ◌⊎◌, inl, inr}
pub use mathlib.Core.Bool.{Bool, true, false, not, ◌&&◌, ◌||◌}
pub use mathlib.Core.Option.{Option, none, some}
pub use mathlib.Core.List.{List, [], ◌∷◌, ◌++◌, map}
pub use native.Mathlib.Omega.{arith}
