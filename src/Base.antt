-- ===== src/Base.antt =====
-- The names that the other modules share: the libraries', passed on, and those of the children.
mod Tests
mod Lists
mod Texts
mod Effect
mod Integers
mod Decimal
mod Splitting
pub mod Dict
pub use Tests.*
pub use Lists.*
pub use Splitting.*
pub use Decimal.*
pub use Texts.*
pub use Effect.*
pub use Integers.*
unfoldable pub use Decimal.{decimal, read_digits}
unfoldable pub use Texts.{text_eq, lower_code, is_space, strip_start, replace, split_on, split_once}
pub use Prim.Native.Nat.{ℕ, zero, suc, ◌+◌, ◌-◌, ◌*◌, ◌/◌, ◌%◌, ◌^◌, ◌≤◌, ◌<◌, min, max}
pub use mathlib.Core.Path.{◌≡◌, refl, sym, ap, subst, ◌∙◌}
pub use mathlib.Core.Logic.{◌≢◌, ◌↔◌, ◌⊎◌, inl, inr}
pub use mathlib.Core.Bool.{Bool, true, false, not, ◌&&◌, ◌||◌}
pub use mathlib.Core.Option.{Option, none, some}
pub use mathlib.Core.List.{List, [], ◌∷◌, ◌++◌, map, reverse}
pub use native.Mathlib.Omega.{arith}
