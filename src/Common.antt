-- ===== src/Common.antt =====
-- The names that the other modules share: the libraries', passed on, and those of the children.
mod Tests
mod Lists
mod Keys
mod Errors
mod Outcomes
mod Alls
pub mod Assoc
pub mod Int
pub mod Decimal
pub use Tests.*
pub use Lists.*
pub use Keys.*
pub use Errors.*
pub use Outcomes.*
pub use Alls.*
pub use Prim.Native.Nat.{ℕ, zero, suc, ◌+◌, ◌-◌, ◌*◌, ◌/◌, ◌%◌, ◌^◌, ◌≤◌, ◌<◌, min, max}
pub use mathlib.Core.Path.{◌≡◌, refl, sym, ap, ◌∙◌, ◌≡⟨◌⟩◌, ◌∎, subst}
pub use mathlib.Core.Logic.{◌≢◌, ◌↔◌, ◌⊎◌, inl, inr}
pub use mathlib.Core.Bool.{Bool, true, false, ◌&&◌, ◌||◌, not}
pub use mathlib.Core.Option.{Option, none, some}
pub use mathlib.Core.List.{
  List, [], ◌∷◌, ◌++◌, map, append_assoc, append-nil, map-append, Mem, mem-cons_self,
  mem-cons_of_mem, mem-append_right,
}
pub use mathlib.Core.List.Forall₂
pub use mathlib.Core.List.{Forall₂}
pub use native.Mathlib.Omega.{arith}
