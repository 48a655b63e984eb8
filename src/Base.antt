-- ===== src/Base.antt =====
-- The names that every module shares: those of the libraries, passed on, and of the children.
mod Tests
mod Names
mod Maps
mod Loop
mod Outcomes
mod Integers
mod Texts
pub mod Run
pub use Tests.*
unfoldable pub use Names.*
unfoldable pub use Maps.*
unfoldable pub use Loop.*
pub use Outcomes.*
unfoldable pub use Integers.*
unfoldable pub use Texts.*
pub use Prim.Native.Nat.{ℕ, zero, suc, ◌+◌, ◌-◌, ◌*◌, ◌%◌, ◌^◌, ◌≤◌, ◌<◌}
pub use Prim.Native.String.{String}
pub use mathlib.Core.Path.{◌≡◌, refl, sym, ap, ◌∙◌}
pub use mathlib.Core.Logic.{◌≢◌, ◌↔◌, ◌⊎◌, inl, inr}
pub use mathlib.Core.Bool.{Bool, true, false, ◌&&◌, ◌||◌, not}
pub use mathlib.Core.Option.{Option, none, some}
pub use mathlib.Core.List.{List, [], ◌∷◌, ◌++◌, map}
pub use native.Mathlib.Omega.{arith}
pub use text.Mathlib.Text.{◌==◌}
pub use text.Mathlib.TextEquality.{eq_iff}
