-- ===== src/Base.antt =====
-- The names that every module shares: the libraries' over the native numbers, Boolean tests,
-- lists used as C arrays, and C's signed `int`.
pub mod Tests
mod Arrays
pub mod Scan
mod Signed
pub mod Text
pub use Tests.*
pub use Arrays.*
unfoldable pub use Scan.*
unfoldable pub use Text.*
pub use Signed.*
pub use Prim.Native.Nat.{ℕ, zero, suc, ◌+◌, ◌-◌, ◌*◌, ◌/◌, ◌%◌, ◌^◌, ◌≤◌, ◌<◌, min}
pub use mathlib.Core.Path.{◌≡◌, refl, sym, ap, ap₂, ◌∙◌}
pub use mathlib.Core.Logic.{◌≢◌, ◌⊎◌, ◌↔◌, inl, inr}
pub use mathlib.Core.Bool.{Bool, true, false, not, ◌&&◌, ◌||◌}
pub use mathlib.Core.Option.{Option, none, some}
pub use mathlib.Core.List.{List, [], ◌∷◌, ◌++◌, map, append-nil, append_assoc}
pub use native.Mathlib.Omega.{arith}
