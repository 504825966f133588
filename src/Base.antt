-- ===== src/Base.antt =====
-- Names and lemmas that the models of src/csk_registry share: the libraries' names passed on,
-- Boolean tests, lists measured by native numbers, and texts as lists of code points.
mod Tests
mod Lists
mod Texts
mod Errors
mod Hex
pub use Tests.*
pub use Lists.*
unfoldable pub use Texts.*
pub use Errors.*
unfoldable pub use Hex.*
pub use Prim.Native.Nat.{ℕ, zero, suc, ◌+◌, ◌-◌, ◌*◌, ◌/◌, ◌%◌, ◌^◌, ◌≤◌, ◌<◌, max}
pub use Prim.Native.String.{String}
pub use mathlib.Core.Path.{◌≡◌, refl, sym, ap, ◌∙◌, subst}
pub use mathlib.Core.Logic.{◌≢◌, ◌↔◌, ◌⊎◌, inl, inr}
pub use mathlib.Core.Bool.{Bool, true, false, not, ◌&&◌, ◌||◌}
pub use mathlib.Core.Option.{Option, none, some}
pub use mathlib.Core.List.{List, [], ◌∷◌, ◌++◌, map, append-nil, append_assoc}
pub use native.Mathlib.Omega.{arith}
