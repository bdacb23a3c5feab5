-- ===== src/Base.antt =====
-- What the models of all components share: the libraries' names, Boolean tests, equality as an
-- interface, and Python's sets and dicts over keys with such an equality.
mod Tests
mod Lists
mod Keys
mod Results
pub mod Int
pub mod Sets
pub mod Dicts
pub mod Sorting
pub use Tests.*
unfoldable pub use Lists.*
pub use Keys.*
pub use Results.*
pub use Prim.Native.Nat.{ℕ, zero, suc, ◌+◌, ◌-◌, ◌*◌, ◌/◌, ◌%◌, ◌^◌, ◌≤◌, ◌<◌}
pub use Prim.Native.String.{String}
pub use mathlib.Core.Path.{◌≡◌, refl, sym, ap, ◌∙◌, subst}
pub use mathlib.Core.Logic.{◌≢◌, ◌↔◌, ◌⊎◌, inl, inr}
pub use mathlib.Core.Bool.{Bool, true, false, not, ◌&&◌, ◌||◌}
pub use mathlib.Core.Option.{Option, none, some}
pub use mathlib.Core.List.{List, [], ◌∷◌, ◌++◌, map}
pub use native.Mathlib.Omega.{arith}
