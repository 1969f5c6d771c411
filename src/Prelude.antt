-- ===== src/Prelude.antt =====
-- The names that the other modules share: the libraries', passed on, and those of the children:
-- Boolean tests, lists over the native numbers, memories as functions, signed integers, bits.
mod Tests
mod Lists
mod Memory
mod Words
pub mod Int
pub mod Bits
pub use Tests.*
pub use Lists.*
pub use Memory.*
pub use Words.*
pub use Prim.Native.Nat.{ℕ, zero, suc, ◌+◌, ◌-◌, ◌*◌, ◌/◌, ◌%◌, ◌^◌, ◌≤◌, ◌<◌, min}
pub use Prim.Native.Nat.{bit_and, bit_or, bit_xor}
pub use mathlib.Core.Path.{◌≡◌, refl, sym, ap, ◌∙◌, fun_ext, ap₂, subst}
pub use mathlib.Core.Logic.{◌≢◌, ◌↔◌, ◌⊎◌, inl, inr}
pub use mathlib.Core.Bool.{Bool, true, false, ◌&&◌, ◌||◌, not}
pub use mathlib.Core.Option.{Option, none, some}
pub use mathlib.Core.List.{List, [], ◌∷◌, ◌++◌, map, append-nil, append_assoc}
pub use native.Mathlib.Omega.{arith}
unfoldable pub use native.Mathlib.Decide.{dec_lt, ℕ_discrete}
