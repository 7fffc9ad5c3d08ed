-- ===== src/Prelude.antt =====
-- The names that the other modules share: the libraries' own, passed on, and those of the child
-- modules (Boolean tests, lists over the native numbers, Go strings, maps keyed by strings).
mod Tests
mod Lists
mod Text
mod Maps
mod Counting
pub use Tests.*
pub use Lists.*
unfoldable pub use Text.{str_eq, str_leb}
pub use Text.*
pub use Maps.*
pub use Counting.*
pub use Prim.Native.Nat.{ℕ, zero, suc, ◌+◌, ◌-◌, ◌*◌, ◌/◌, ◌%◌, ◌^◌, ◌≤◌, ◌<◌}
pub use mathlib.Core.Path.{◌≡◌, refl, sym, ap, subst, ◌∙◌}
pub use mathlib.Core.Logic.{◌≢◌, ◌↔◌, ◌⊎◌, inl, inr}
pub use mathlib.Core.Bool.{Bool, true, false, not, ◌&&◌, ◌||◌}
pub use mathlib.Core.Option.{Option, none, some}
pub use mathlib.Core.List.{List, [], ◌∷◌, ◌++◌, map}
pub use native.Mathlib.Omega.{arith}
