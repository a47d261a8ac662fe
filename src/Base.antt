-- ===== src/Base.antt =====
-- What the other modules share: names of the libraries, tests, machine words, bits and the monad
-- in which the emulator's methods are written.
mod Tests
mod Word
mod Bits
mod Mask
mod Update
mod Lists
pub mod Int
pub mod Exec
pub mod OrderedSet
pub use Tests.*
pub use Word.*
pub use Bits.*
pub use Mask.*
pub use Update.*
pub use Lists.*
pub use Prim.Native.Nat.{ℕ, zero, suc, ◌+◌, ◌-◌, ◌*◌, ◌/◌, ◌%◌, ◌^◌, ◌≤◌, ◌<◌, min, max}
pub use Prim.Native.Nat.{bit_and, bit_or, bit_xor}
pub use mathlib.Core.Path.{◌≡◌, refl, sym, ap, ap₂, ◌∙◌, fun_ext, subst}
pub use mathlib.Core.Logic.{◌≢◌, ◌↔◌, ◌⊎◌, inl, inr}
pub use mathlib.Core.Bool.{Bool, true, false, not, ◌&&◌, ◌||◌}
pub use mathlib.Core.Option.{Option, none, some, some-injective}
pub use mathlib.Core.List.{List, [], ◌∷◌, ◌++◌, map}
pub use native.Mathlib.Omega.{arith}
