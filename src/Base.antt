-- ===== src/Base.antt =====
-- The names that every module shares: those of the libraries, passed on, and those of the children.
-- The children model what the program takes from Python itself: `==`, `in`, `any`, `all`,
-- comprehensions, dicts in insertion order, the stable `sort`, and the methods of `str`.
mod Tests
mod Equality
mod Lists
pub mod Distinct
pub mod Dict
pub mod Newest
pub mod Sort
pub mod Text
pub mod Parsing
pub mod Regex
pub mod Member
unfoldable pub use Tests.*
unfoldable pub use Equality.*
unfoldable pub use Lists.*
pub use Prim.Native.Nat.{ℕ, zero, suc, ◌+◌, ◌-◌, ◌*◌, ◌/◌, ◌%◌, ◌≤◌, ◌<◌}
pub use Prim.Native.String.{String, ◌++◌ as ◌<>◌}
pub use mathlib.Core.Path.{◌≡◌, refl, sym, ap, subst, ◌∙◌}
pub use mathlib.Core.Logic.{◌≢◌, ◌↔◌, ◌⊎◌, inl, inr}
pub use mathlib.Core.Bool.{Bool, true, false, not, ◌&&◌, ◌||◌}
pub use mathlib.Core.Option.{Option, none, some, some-injective}
pub use mathlib.Core.List.{List, [], ◌∷◌, ◌++◌, map, append-nil}
pub use native.Mathlib.Omega.{arith}
pub use text.Mathlib.TextEquality.{eq_iff}
