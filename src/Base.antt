-- ===== src/Base.antt =====
-- Shared by all modules: the library names they use, tests on numbers, lists measured by native
-- numbers, bytes and big-endian words, UTF-8, and the outcome of a loop that runs on fuel.
mod Tests
mod Lists
pub mod Bytes
pub mod Utf8
pub mod Time
pub mod Net
pub mod Text
pub mod Rounds
pub mod Equality
pub mod BtreeMap
pub mod Members
pub use Tests.*
unfoldable pub use Lists.*
pub use Prim.Native.Nat.{
  ℕ, zero, suc, ◌+◌, ◌-◌, ◌*◌, ◌/◌, ◌%◌, ◌^◌, ◌≤◌, ◌<◌, min, max, bit_and, bit_or, bit_xor,
}
pub use mathlib.Core.Path.{◌≡◌, refl, sym, ap, ◌∙◌}
pub use mathlib.Core.Logic.{◌≢◌, ◌↔◌, ◌⊎◌, inl, inr}
pub use mathlib.Core.Bool.{Bool, true, false, ◌&&◌, ◌||◌, not}
pub use mathlib.Core.Option.{Option, none, some}
pub use mathlib.Core.List.{List, [], ◌∷◌, ◌++◌, map}
pub use native.Mathlib.Omega.{arith}
