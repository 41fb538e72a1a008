-- ===== src/Prelude.antt =====
-- The names that the other modules share: the libraries', passed on, and Boolean tests, lists and
-- equality tests over the native numbers. It models no code of the repository by itself.
mod Tests
mod Lists
mod Equality
pub mod Sort
pub use Tests.*
unfoldable pub use Lists.{any, all, drop}
pub use Lists.{length, take, All, Text, codes, ++_nil, ++_cons}
unfoldable pub use Equality.{text_beq}
pub use Equality.{HasEq, ◌==◌, ==_iff, ==_refl, nat_eq, text_eq, pair_eq, pair_beq}
pub use Prim.Native.Nat.{ℕ, zero, suc, ◌+◌, ◌-◌, ◌*◌, ◌/◌, ◌%◌, ◌^◌, ◌≤◌, ◌<◌, min, max}
pub use mathlib.Core.Path.{◌≡◌, refl, sym, ap, ap₂, subst, ◌∙◌}
pub use mathlib.Core.Logic.{◌≢◌, ◌↔◌, ◌⊎◌, inl, inr}
pub use mathlib.Core.Bool.{Bool, true, false, not, ◌&&◌, ◌||◌}
pub use mathlib.Core.Option.{Option, none, some}
pub use mathlib.Core.List.{List, [], ◌∷◌, ◌++◌, map}
pub use native.Mathlib.Omega.{arith}
