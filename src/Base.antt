-- ===== src/Base.antt =====
-- The names that every other module shares: the libraries' names, passed on, and those of the
-- children below (tests, lists and membership, decidable equality, order, Python's `dict`, results).
mod Tests
mod Lists
mod Equality
mod Order
mod Outcome
mod Mapping
mod Membership
mod Distinctness
mod Occurrences
unfoldable pub use Tests.*
unfoldable pub use Lists.*
unfoldable pub use Equality.*
unfoldable pub use Order.*
unfoldable pub use Outcome.*
unfoldable pub use Mapping.*
pub use Membership.*
pub use Distinctness.*
unfoldable pub use Occurrences.*
pub use Prim.Native.Nat.{ℕ, zero, suc, ◌+◌, ◌-◌, ◌*◌, ◌/◌, ◌%◌, ◌≤◌, ◌<◌, Ordering}
pub use Prim.Native.String.{String}
pub use mathlib.Core.Path.{◌≡◌, refl, sym, ap, ◌∙◌, subst}
pub use mathlib.Core.Logic.{◌≢◌, ◌↔◌, ◌⊎◌, inl, inr}
pub use mathlib.Core.Bool.{Bool, true, false, not, ◌&&◌, ◌||◌}
pub use mathlib.Core.Option.{Option, none, some}
pub use mathlib.Core.List.{List, [], ◌∷◌, ◌++◌, map, reverse}
pub use native.Mathlib.Omega.{arith}
