-- ===== src/Prelude.antt =====
-- What the components share: names of the libraries, passed on, and the helpers of the children.
mod Tests
mod Lists
mod Shift
mod Bits
mod Leading
mod Effects
pub use Tests.*
pub use Lists.*
unfoldable pub use Shift.{shr}
pub use Shift.*
pub use Bits.*
unfoldable pub use Leading.{leading_zeros}
pub use Leading.*
pub use Effects.*
pub use Prim.Native.Nat.{
  ℕ, zero, suc, ◌+◌, ◌-◌, ◌*◌, ◌/◌, ◌%◌, ◌^◌, ◌≤◌, ◌<◌, min, max, bit_and, bit_xor,
}
pub use mathlib.Core.Path.{◌≡◌, refl, sym, ap, subst, ap₂, ◌∙◌, fun_ext}
pub use mathlib.Core.Logic.{◌≢◌, ◌↔◌, ◌⊎◌, inl, inr}
pub use mathlib.Core.Bool.{Bool, true, false, not, ◌&&◌, ◌||◌}
pub use mathlib.Core.Option.{Option, none, some}
pub use mathlib.Core.List.{List, [], ◌∷◌, ◌++◌, map}
pub use native.Mathlib.Omega.{arith}
