-- ===== src/Base.antt =====
-- The names that the other modules share: the libraries', passed on, and those of the children.
mod Tests
mod Arrays
mod Minimum
mod Masks
mod Lists
mod Pigeonhole
mod Int
pub use Tests.*
pub use Arrays.{Table, update, fill_lem, from_next}
unfoldable pub use Arrays.{fill}
pub use Minimum.*
pub use Masks.*
pub use Lists.*
pub use Pigeonhole.*
pub use Int.{ℤ, pos, negsuc, neg, is_negative, IsI64, IsI32, to_i64-to_u64, to_i32-to_u64}
unfoldable pub use Int.{to_u64, to_i64, to_i32}
pub use Prim.Native.Nat.{
  ℕ, zero, suc, ◌+◌, ◌-◌, ◌*◌, ◌/◌, ◌%◌, ◌^◌, ◌≤◌, ◌<◌, bit_and, bit_xor, min,
}
pub use mathlib.Core.Path.{◌≡◌, refl, sym, ap, ◌∙◌, subst}
pub use mathlib.Core.Logic.{◌≢◌, ◌↔◌, ◌⊎◌, inl, inr}
pub use mathlib.Core.Bool.{Bool, true, false, ◌&&◌, ◌||◌, not}
pub use mathlib.Core.Option.{Option, none, some}
pub use mathlib.Core.List.{List, [], ◌∷◌, ◌++◌, map}
pub use native.Mathlib.Omega.{arith}
