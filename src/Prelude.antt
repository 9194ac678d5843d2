-- ===== src/Prelude.antt =====
-- Names that the modules share: those of the libraries, passed on, and those of the children.
mod Tests
mod Lists
mod Strings
mod Equality
mod Sets
mod Sorting
mod Maps
mod Members
mod Unique
mod Runtime
mod Searches
mod Groups
mod Slices
mod Entries
mod Pigeonhole
mod Counts
pub use Tests.*
pub use Lists.*
unfoldable pub use Strings.*
pub use Equality.*
unfoldable pub use Sets.*
unfoldable pub use Sorting.*
unfoldable pub use Maps.*
unfoldable pub use Unique.*
pub use Members.*
pub use Runtime.*
pub use Searches.*
unfoldable pub use Groups.*
pub use Entries.*
unfoldable pub use Slices.*
pub use Counts.*
pub use Pigeonhole.{IsUnique-length-le}
pub use Prim.Native.Nat.{ℕ, zero, suc, ◌+◌, ◌-◌, ◌*◌, ◌/◌, ◌%◌, ◌≤◌, ◌<◌}
pub use Prim.Native.String.{String}
pub use mathlib.Core.Path.{◌≡◌, refl, sym, ap, ◌∙◌, subst}
pub use mathlib.Core.Logic.{◌≢◌, ◌↔◌, ◌⊎◌, inl, inr}
pub use mathlib.Core.Bool.{Bool, true, false, not, ◌&&◌, ◌||◌}
pub use mathlib.Core.Option.{Option, none, some}
pub use mathlib.Core.List.{List, [], ◌∷◌, ◌++◌, map}
pub use native.Mathlib.Omega.{arith}
pub use text.Mathlib.TextEquality.{eq_iff}
pub use text.Mathlib.TextPositions.{eq_refl}
