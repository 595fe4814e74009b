-- ===== src/Common.antt =====
-- Names that the other modules share: the libraries', passed on, and those of the children:
-- Boolean tests, sequences measured by native numbers, C machine words and masks, signed
-- integers, and memory blocks.
mod Tests
pub mod Lists
pub mod Digits
pub mod Bits
pub mod Xor
pub mod Word
pub mod Memory
pub mod Int
pub mod Partial
pub mod Text
pub use Tests.*
pub use Prim.Native.Nat.{ℕ, zero, suc, ◌+◌, ◌-◌, ◌*◌, ◌/◌, ◌%◌, ◌^◌, ◌≤◌, ◌<◌, min}
pub use mathlib.Core.Path.{◌≡◌, refl, sym, ap, ap₂, ◌∙◌, subst}
pub use mathlib.Core.Logic.{◌≢◌, ◌↔◌, ◌⊎◌, inl, inr}
pub use mathlib.Core.Bool.{Bool, true, false, not, ◌&&◌, ◌||◌}
pub use mathlib.Core.Option.{Option, none, some}
pub use mathlib.Core.List.{List, [], ◌∷◌, ◌++◌, map}
pub use native.Mathlib.Omega.{arith}
unfoldable pub use native.Mathlib.Decide.{dec_lt, ℕ_discrete}
