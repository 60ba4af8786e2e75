-- ===== src/Shared.antt =====
-- What the modules share: names of the libraries, passed on, and those of the children.
mod Tests
mod Lists
mod Ending
mod Bytes
mod Loops
pub mod Int
pub use Tests.*
pub use Lists.*
pub use Ending.*
pub use Loops.*
unfoldable pub use Bytes.*
pub use Prim.Native.Nat.{ℕ, zero, suc, ◌+◌, ◌-◌, ◌*◌, ◌/◌, ◌%◌, ◌^◌, ◌≤◌, ◌<◌, min}
pub use mathlib.Core.Path.{◌≡◌, refl, sym, ap, ap₂, subst, ◌∙◌}
pub use mathlib.Core.Logic.{◌≢◌, ◌↔◌, ◌⊎◌, inl, inr}
pub use mathlib.Core.Bool.{Bool, true, false, not, ◌&&◌, ◌||◌}
pub use mathlib.Core.Option.{Option, none, some}
pub use mathlib.Core.List.{List, [], ◌∷◌, ◌++◌, reverse, append-nil, append_assoc}
pub use native.Mathlib.Omega.{arith}
