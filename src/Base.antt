-- ===== src/Base.antt =====
-- The names that every part shares: the libraries', passed on, and the lemmas of the children.
mod Tests
mod Lists
mod Endian
mod Copy
mod Words
mod Counting
mod Checks
mod Xor
mod And
mod Fields
pub use Tests.*
pub use Lists.*
unfoldable pub use Endian.*
pub use Copy.*
pub use Words.*
unfoldable pub use Counting.*
unfoldable pub use Checks.*
pub use Xor.*
pub use And.*
pub use Fields.*
pub use Prim.Native.Nat.{
  ℕ, zero, suc, ◌+◌, ◌-◌, ◌*◌, ◌/◌, ◌%◌, ◌^◌, ◌≤◌, ◌<◌, min, max, bit_and, bit_or, bit_xor,
}
pub use mathlib.Core.Path.{◌≡◌, refl, sym, ap, ap₂, ◌∙◌, subst}
pub use mathlib.Core.Logic.{◌≢◌, ◌↔◌, ◌⊎◌, inl, inr}
pub use mathlib.Core.Bool.{Bool, true, false, not, ◌&&◌, ◌||◌}
pub use mathlib.Core.Option.{Option, none, some}
pub use mathlib.Core.List.{List, [], ◌∷◌, ◌++◌, map}
pub use native.Mathlib.Omega.{arith}
unfoldable pub use native.Mathlib.Decide.{dec_lt, ℕ_discrete}
