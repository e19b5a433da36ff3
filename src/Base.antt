-- ===== src/Base.antt =====
-- The names that all modules share: the libraries', passed on, and those of the children.
mod Tests
mod Bits
mod Digits
mod Nibble
mod Lists
mod Ops
mod Maps
mod Low
mod Masks
pub use Tests.*
pub use Bits.*
pub use Digits.*
pub use Nibble.*
pub use Lists.*
pub use Ops.*
unfoldable pub use Maps.*
unfoldable pub use Masks.*
pub use Low.*
pub use Prim.Native.Nat.{ℕ, zero, suc, ◌+◌, ◌-◌, ◌*◌, ◌/◌, ◌%◌, ◌^◌, ◌≤◌, ◌<◌, bit_and, bit_or}
pub use mathlib.Core.Path.{◌≡◌, refl, sym, ap, ◌∙◌, fun_ext}
pub use mathlib.Core.Logic.{◌≢◌, ◌⊎◌, ◌↔◌, inl, inr}
pub use mathlib.Core.Bool.{Bool, true, false, not, ◌&&◌, ◌||◌}
pub use mathlib.Core.Option.{Option, none, some}
pub use mathlib.Core.List.{append-nil, append_assoc, List, [], ◌∷◌, ◌++◌}
pub use native.Mathlib.Omega.{arith}
