-- ===== src/Common.antt =====
-- The names that the other modules share: the libraries', passed on, and the helpers below.
pub mod Tests
pub mod Lists
pub mod Int
pub mod Columns
pub mod Text
pub use Tests.*
pub use Lists.*
pub use Int.*
pub use Columns.*
unfoldable pub use Text.*
pub use Prim.Native.Nat.{ℕ, zero, suc, ◌+◌, ◌-◌, ◌*◌, ◌/◌, ◌%◌, ◌^◌, ◌≤◌, ◌<◌}
pub use mathlib.Core.Path.{◌≡◌, refl, sym, ap, ap₂, subst, ◌∙◌}
pub use native.Mathlib.Nat.{le_trans, le_refl}
pub use mathlib.Core.Logic.{◌≢◌, ◌↔◌, ◌⊎◌, inl, inr}
pub use mathlib.Core.Bool.{Bool, true, false, ◌&&◌, ◌||◌, not}
pub use mathlib.Core.Option.{Option, none, some}
pub use mathlib.Core.List.{List, [], ◌∷◌, ◌++◌, map, head?, tail}
pub use native.Mathlib.Omega.{arith}
