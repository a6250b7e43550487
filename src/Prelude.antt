-- ===== src/Prelude.antt =====
-- The names that the other modules share: those of the libraries, passed on, and those of the
-- children: tests on numbers, lists with native lengths, and tables over the byte values.
mod Tests
mod Lists
mod ByteStrings
mod Int
mod Bits
pub use Tests.*
pub use Lists.*
pub use Bits.{bit_and-ones, power_of_bit_and}
pub use Int.{ℤ, pos, negsuc, add_ℕ}
pub use ByteStrings.{Bytes, IsByte, IsBytes, codes, holds_at, same, eq_of_same}
unfoldable pub use ByteStrings.{holds_up_to}
pub use Prim.Native.Nat.{
  ℕ, zero, suc, ◌+◌, ◌-◌, ◌*◌, ◌/◌, ◌%◌, ◌^◌, ◌≤◌, ◌<◌, bit_and, bit_or, min, max,
}
pub use mathlib.Core.Path.{◌≡◌, refl, sym, ap, ap₂, ◌∙◌, subst, ◌≡⟨◌⟩◌, ◌∎}
pub use mathlib.Core.Logic.{◌≢◌, ◌↔◌, ◌⊎◌, inl, inr}
pub use mathlib.Core.Bool.{Bool, true, false, not, ◌&&◌, ◌||◌}
pub use mathlib.Core.Option.{Option, none, some}
pub use mathlib.Core.List.{List, [], ◌∷◌, ◌++◌, map, append-nil, append_assoc}
pub use native.Mathlib.Omega.{arith}
