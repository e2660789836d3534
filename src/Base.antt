-- ===== src/Base.antt =====
-- The names that the other modules share: the libraries' and those of the children, passed on.
-- It models no part of the program.
mod Tests
mod Lists
mod Results
mod Filters
pub mod Bits
pub mod BigEndian
pub mod Order
pub mod Int
pub mod Text
pub mod Prefixes
pub use Tests.*
unfoldable pub use Lists.*
unfoldable pub use Filters.*
pub use Results.*
pub use Prim.Native.Nat.{ℕ, zero, suc, ◌+◌, ◌-◌, ◌*◌, ◌/◌, ◌%◌, ◌^◌, ◌≤◌, ◌<◌}
pub use Prim.Native.Nat.{bit_and, bit_or, bit_xor}
pub use mathlib.Core.Path.{◌≡◌, refl, sym, ap, ◌∙◌, subst, fun_ext}
pub use mathlib.Core.Logic.{◌≢◌, ◌↔◌, ◌⊎◌, inl, inr}
pub use mathlib.Core.Bool.{Bool, true, false, not, ◌&&◌, ◌||◌}
pub use mathlib.Core.Option.{Option, none, some}
pub use mathlib.Core.List.{List, [], ◌∷◌, ◌++◌, map, append-nil, append_assoc}
pub use native.Mathlib.Omega.{arith}
