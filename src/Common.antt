-- ===== src/Common.antt =====
-- The names that the other modules share: the libraries', passed on, and those of the children.
mod Tests
mod Lists
mod Text
pub mod OrdMap
pub mod Options
pub mod OrdSet
pub mod Ints
pub mod Keys
pub mod Bits
pub mod BigEndian
pub mod WfOrder
pub use Tests.*
pub use Lists.{
  length, length-append, get_elem?, get_or, take, drop, replicate, take-append, drop-append,
  take-drop, length-take, length-drop, length-replicate, All, All-append, All-replicate,
  All-keep_if, keep_if-append, length-keep_if, map, length-map, map-append,
}
unfoldable pub use Lists.{keep_if, any}
pub use Text.{Str, codes, str_eq_self, str_eq→eq, str_eq_iff, str_eq_ne}
unfoldable pub use Text.{str_eq, is_empty}
pub use Prim.Native.Nat.{ℕ, zero, suc, ◌+◌, ◌-◌, ◌*◌, ◌/◌, ◌%◌, ◌^◌, ◌≤◌, ◌<◌}
pub use mathlib.Core.Path.{◌≡◌, refl, sym, ap, ap₂, subst, ◌∙◌}
pub use mathlib.Core.Logic.{◌≢◌, ◌↔◌, ◌⊎◌, inl, inr}
pub use mathlib.Core.Bool.{Bool, true, false, not, ◌&&◌, ◌||◌}
pub use mathlib.Core.Option.{Option, none, some}
pub use mathlib.Core.List.{List, [], ◌∷◌, ◌++◌, append-nil, append_assoc}
pub use native.Mathlib.Omega.{arith}
