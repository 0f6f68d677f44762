-- ===== src/Common.antt =====
-- The names that the modules share: those of the libraries, passed on, and those of the children
-- (tests on numbers, options, lists, dictionaries, results of fallible calls).
mod Tests
mod Lists
mod StringMap
mod Fallible
pub use Tests.*
pub use Lists.*
unfoldable pub use StringMap.*
pub use Fallible.*
pub use Prim.Native.Nat.{
  ℕ, zero, suc, ◌+◌, ◌-◌, ◌*◌, ◌/◌, ◌%◌, ◌^◌, ◌≤◌, ◌<◌, compare, Ordering, min, max,
}
pub use Prim.Native.String.{String}
pub use mathlib.Core.Path.{◌≡◌, refl, sym, ap, ◌∙◌}
pub use text.Mathlib.TextPositions.{eq_refl}
pub use mathlib.Core.Logic.{◌≢◌, ◌↔◌, ◌⊎◌, inl, inr}
pub use text.Mathlib.TextEquality.{eq_iff}
pub use mathlib.Core.Bool.{Bool, true, false, not, ◌&&◌, ◌||◌}
pub use mathlib.Core.Option.{Option, none, some}
pub use text.Mathlib.Text.{◌==◌ as ◌=s◌}
pub use mathlib.Core.List.{List, [], ◌∷◌, ◌++◌, map}
pub use native.Mathlib.Omega.{arith}
