-- ===== src/Prelude.antt =====
-- The names that the other modules share: those of the libraries, passed on, and of the children.
mod Tests
mod Lists
mod Classes
mod Str
mod Trim
mod Int
mod Decimal
mod Results
mod Lines
mod Maps
mod Sorting
pub use Tests.*
unfoldable pub use Lists.*
unfoldable pub use Classes.*
unfoldable pub use Str.*
unfoldable pub use Trim.*
pub use Int.*
unfoldable pub use Lines.*
unfoldable pub use Maps.*
unfoldable pub use Sorting.*
pub use Results.*
unfoldable pub use Decimal.*
pub use Prim.Native.Nat.{ℕ, zero, suc, ◌+◌, ◌-◌, ◌*◌, ◌/◌, ◌%◌, ◌^◌, ◌≤◌, ◌<◌, min, max}
pub use mathlib.Core.Path.{◌≡◌, refl, sym, ap, ap₂, subst, ◌∙◌}
pub use mathlib.Core.Logic.{◌≢◌, ◌↔◌, ◌⊎◌, inl, inr}
pub use mathlib.Core.Bool.{Bool, true, false, not, ◌&&◌, ◌||◌}
pub use mathlib.Core.Option.{Option, none, some}
pub use mathlib.Core.List.{
  List, [], ◌∷◌, ◌++◌, map, append_assoc, append-nil, reverse, reverse-append, reverse-cons,
  reverse-reverse,
}
pub use native.Mathlib.Omega.{arith}
