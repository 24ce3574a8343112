-- ===== src/Base.antt =====
-- The names that the other modules share: the libraries', passed on, and those of the children.
-- `Base/Tests` has conditionals and case splits, `Base/Texts` strings, `Base/Maps` Go's
-- map[string]string, `Base/Equality` reflect.DeepEqual, `Base/Order` and
-- `Base/Sorting` the orders and sort.Slice.
mod Tests
mod Texts
mod Maps
mod Equality
mod Order
mod Sorting
mod Lexicographic
mod Ties
unfoldable pub use Tests.*
unfoldable pub use Texts.*
unfoldable pub use Maps.*
unfoldable pub use Equality.*
unfoldable pub use Order.*
unfoldable pub use Sorting.*
unfoldable pub use Lexicographic.*
pub use Ties.*
pub use Prim.Native.Nat.{ℕ, zero, suc, ◌+◌, ◌-◌, ◌≤◌, ◌<◌}
pub use Prim.Native.String.{String}
pub use mathlib.Core.Path.{◌≡◌, refl, sym, ap, ap₂, ◌∙◌, subst, fun_ext}
pub use mathlib.Core.Logic.{◌≢◌, ◌↔◌, ◌⊎◌, inl, inr}
pub use mathlib.Core.Bool.{Bool, true, false, not, ◌&&◌, ◌||◌}
pub use mathlib.Core.Option.{Option, none, some}
pub use mathlib.Core.List.{List, [], ◌∷◌, ◌++◌, map}
pub use native.Mathlib.Omega.{arith}
