-- ===== src/Prelude.antt =====
-- The names that the modules share: the libraries', passed on, and those of the children, which
-- are Boolean tests, lists by native numbers, JavaScript strings and maps, and calls that throw.
pub mod Tests
pub mod Lists
pub mod Strings
pub mod Maps
pub mod Numerals
pub mod Throws
pub use Tests.*
pub use Lists.*
pub use Throws.*
pub use Strings.{Text, codes, text_eq_iff, text_eq_refl}
unfoldable pub use Strings.{text_eq}
pub use Prim.Native.Nat.{ℕ, zero, suc, ◌+◌, ◌-◌, ◌*◌, ◌≤◌, ◌<◌, min, max}
pub use mathlib.Core.Path.{◌≡◌, refl, sym, ap, subst, ◌∙◌}
pub use mathlib.Core.Logic.{◌≢◌, ◌↔◌, ◌⊎◌, inl, inr}
pub use mathlib.Core.Bool.{Bool, true, false, ◌&&◌, ◌||◌, not}
pub use mathlib.Core.Option.{Option, none, some}
pub use mathlib.Core.List.{List, [], ◌∷◌, ◌++◌, map, append-nil, append_assoc}
pub use native.Mathlib.Omega.{arith}
