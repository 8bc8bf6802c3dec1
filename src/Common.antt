-- ===== src/Common.antt =====
-- The names that the other modules share: the libraries', passed on, and those of three children.
mod Bools
mod Lists
mod Order
mod Bytes
mod Endian
mod Search
pub mod Bits
pub mod Map
unfoldable pub use Bools.{eqs}
pub use Bools.*
pub use Lists.*
unfoldable pub use Search.{find_first, erase_first}
pub use Search.{
  find_first-append, find_first-append_none, erase_first-append_none, find_first-passes,
  All-find_first, All-erase_first,
}
unfoldable pub use Bytes.{u32_mod, u64_mod, all_below}
pub use Bytes.{all_below_sound}
unfoldable pub use Endian.{le_bytes, le_value}
pub use Endian.{length-le_bytes, le_value-le_bytes}
unfoldable pub use Order.{lt_wf}
pub use Prim.Native.Nat.{ℕ, zero, suc, ◌+◌, ◌-◌, ◌*◌, ◌/◌, ◌%◌, ◌^◌, ◌≤◌, ◌<◌, min, max}
pub use Prim.Native.Nat.{bit_and, bit_or, bit_xor}
pub use mathlib.Core.Path.{◌≡◌, refl, sym, ap, ◌∙◌, subst}
pub use mathlib.Core.Logic.{◌≢◌, ◌↔◌, ◌⊎◌, inl, inr}
pub use mathlib.Core.Bool.{Bool, true, false, not, ◌&&◌, ◌||◌}
pub use mathlib.Core.Option.{Option, none, some}
pub use mathlib.Core.List.{List, [], ◌∷◌, ◌++◌, map, append_assoc, append-nil}
pub use native.Mathlib.Omega.{arith}
