-- ===== src/Base.antt =====
-- Names that every module shares: the libraries', passed on, and the children's.
mod Tests
mod Lists
mod Predicates
mod Numbers
mod Int
mod Texts
mod Trimming
mod Affixes
unfoldable pub use Tests.*
pub use Lists.*
pub use Predicates.*
pub use Numbers.*
pub use Int.*
unfoldable pub use Texts.*
pub use Trimming.*
unfoldable pub use Affixes.*
pub use Prim.Native.Nat.{ℕ, zero, suc, ◌+◌, ◌-◌, ◌*◌, ◌/◌, ◌%◌, ◌^◌, ◌≤◌, ◌<◌, min, max}
pub use mathlib.Core.Path.{◌≡◌, refl, sym, ap, ◌∙◌, subst}
pub use mathlib.Core.Logic.{◌≢◌, ◌↔◌, ◌⊎◌, inl, inr}
pub use mathlib.Core.Bool.{Bool, true, false, not, ◌&&◌, ◌||◌}
pub use mathlib.Core.Option.{Option, none, some}
pub use mathlib.Core.List.{List, [], ◌∷◌, ◌++◌, map, append-nil, append_assoc, reverse}
pub use native.Mathlib.Omega.{arith}
