-- ===== src/Base.antt =====
-- The names that every component shares: those of the libraries, passed on, and the helpers of the
-- children: tests on numbers, strings, association lists and exceptions.
mod Tests
mod Text
mod Exceptions
mod Assoc
unfoldable pub use Tests.*
unfoldable pub use Text.*
unfoldable pub use Exceptions.*
unfoldable pub use Assoc.*
pub use Prim.Native.Nat.{ℕ, zero, suc, ◌+◌, ◌-◌, ◌*◌, ◌/◌, ◌%◌, ◌^◌, ◌≤◌, ◌<◌}
pub use mathlib.Core.Path.{◌≡◌, refl, sym, ap, ◌∙◌}
pub use mathlib.Core.Logic.{◌≢◌, ◌↔◌, ◌⊎◌, inl, inr}
pub use mathlib.Core.Bool.{Bool, true, false, not, ◌&&◌, ◌||◌}
pub use mathlib.Core.Option.{Option, none, some}
pub use mathlib.Core.List.{List, [], ◌∷◌, ◌++◌, map}
pub use native.Mathlib.Omega.{arith}
