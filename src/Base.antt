-- ===== src/Base.antt =====
-- The names that the other modules share.
pub mod Tests
pub mod Outcome
pub mod Arrays
pub mod Bits
pub mod Lists
pub use Prim.Native.Nat.{ℕ, zero, suc, ◌+◌, ◌-◌, ◌*◌, ◌/◌, ◌%◌, ◌≤◌, ◌<◌}
pub use mathlib.Core.Path.{◌≡◌, refl, sym, ap, ◌∙◌}
pub use mathlib.Core.Logic.{◌≢◌, ◌↔◌, ◌⊎◌, inl, inr}
pub use mathlib.Core.Bool.{Bool, true, false, ◌&&◌, ◌||◌, not}
pub use native.Mathlib.Omega.{arith}
pub use mathlib.Core.List.{List, [], ◌∷◌, ◌++◌}
