-- ===== src/Prelude.antt =====
-- What the other modules share: the libraries' names, passed on, and those of the children.
-- The children model what src/ uses of the Rust language and its core library.
mod Tests
mod Lists
mod Results
mod Words
mod Slices
mod Bags
pub use Tests.*
pub use Lists.*
pub use Results.*
pub use Words.*
unfoldable pub use Slices.*
unfoldable pub use Bags.*
pub use Prim.Native.Nat.{ℕ, zero, suc, ◌+◌, ◌-◌, ◌*◌, ◌/◌, ◌%◌, ◌^◌, ◌≤◌, ◌<◌, min}
pub use Prim.Native.Nat.{bit_and, bit_or}
pub use mathlib.Core.Path.{◌≡◌, refl, sym, ap, ap₂, ◌∙◌}
pub use mathlib.Core.Logic.{◌≢◌, ◌↔◌, ◌⊎◌, inl, inr}
pub use mathlib.Core.Bool.{Bool, true, false, not, ◌&&◌, ◌||◌}
pub use mathlib.Core.Option.{Option, none, some}
pub use mathlib.Core.List.{List, [], ◌∷◌, ◌++◌, map, append-nil, append_assoc}
pub use native.Mathlib.Omega.{arith}
