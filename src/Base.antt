-- ===== src/Base.antt =====
-- The names that the other modules share: the libraries', passed on, and those of children.
mod Tests
mod Lists
mod Maps
mod Members
mod Masks
mod Rings
mod Arrays
mod Results
pub use Tests.*
pub use Lists.*
pub use Maps.*
pub use Members.*
pub use Masks.*
pub use Rings.*
pub use Arrays.*
pub use Results.*
pub use Prim.Native.Nat.{ℕ, zero, suc, ◌+◌, ◌-◌, ◌*◌, ◌/◌, ◌%◌, ◌^◌, ◌≤◌, ◌<◌, min}
pub use mathlib.Core.Path.{◌≡◌, fun_ext, refl, sym, ap, ap₂, subst, ◌∙◌, ◌≡⟨◌⟩◌, ◌∎}
pub use mathlib.Core.Logic.{◌≢◌, ◌↔◌, ◌⊎◌, inl, inr}
pub use mathlib.Core.Bool.{Bool, true, false, not, ◌&&◌, ◌||◌}
pub use mathlib.Core.Option.{Option, none, some}
pub use mathlib.Core.List.{List, [], ◌∷◌, ◌++◌, map, append-nil, append_assoc}
pub use native.Mathlib.Omega.{arith}
pub use native.Mathlib.Nat.{add_comm, add_assoc, add-zero, zero-add}
unfoldable pub use native.Mathlib.Decide.{dec_lt, dec_le, ℕ_discrete}
