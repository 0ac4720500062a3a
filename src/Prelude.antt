-- ===== src/Prelude.antt =====
-- Shared names: the libraries', passed on, and the tests, results and texts of the children.
mod Tests
mod Results
mod Texts
mod Lists
mod Int
mod Dicts
unfoldable pub use Tests.{Bool-cases}
pub use Tests.*
pub use Results.*
unfoldable pub use Texts.{String-discrete, full_match}
pub use Texts.*
unfoldable pub use Int.{ℤ-discrete}
pub use Int.*
pub use Lists.*
unfoldable pub use Dicts.{lookup, put, remove, total}
pub use Dicts.*
pub use Prim.Native.Nat.{ℕ, zero, suc, ◌+◌, ◌-◌, ◌*◌, ◌/◌, ◌%◌, ◌^◌, ◌≤◌, ◌<◌, min, max}
pub use Prim.Native.String.{String}
pub use mathlib.Core.Path.{◌≡◌, refl, sym, ap, ◌∙◌}
pub use mathlib.Core.Logic.{◌≢◌, ◌↔◌, ◌⊎◌, inl, inr}
pub use mathlib.Core.Bool.{Bool, true, false, not, ◌&&◌, ◌||◌}
pub use mathlib.Core.Option.{Option, none, some}
pub use mathlib.Core.List.{List, [], ◌∷◌, ◌++◌, map}
pub use native.Mathlib.Omega.{arith}
unfoldable pub use native.Mathlib.Decide.{ℕ_discrete}
