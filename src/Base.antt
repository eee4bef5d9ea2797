-- ===== src/Base.antt =====
-- The names that the other modules share: the libraries', passed on, Boolean tests, lists measured
-- by native numbers, and equality as an interface.
mod Tests
mod Lists
mod Equality
mod Sets
mod Texts
pub use Tests.*
pub use Lists.*
pub use Equality.*
pub use Sets.*
pub use Texts.*
unfoldable pub use Sets.{add, discard, as_set}
unfoldable pub use Texts.{
  after_prefix, starts_with, remove_prefix, strip_left, strip_right, strip, is_space, every,
  split_at, split,
}
pub use Prim.Native.String.{◌++◌ as join}
pub use Prim.Native.Nat.{ℕ, zero, suc, ◌+◌, ◌-◌, ◌*◌, ◌^◌, ◌/◌, ◌%◌, ◌≤◌, ◌<◌, min, max}
pub use Prim.Native.String.{String}
pub use mathlib.Core.Path.{◌≡◌, refl, sym, ap, ◌∙◌, subst, fun_ext}
pub use mathlib.Core.Logic.{◌≢◌, ◌↔◌, ◌⊎◌, inl, inr}
pub use mathlib.Core.Bool.{Bool, true, false, not, ◌&&◌, ◌||◌, false≢true}
pub use mathlib.Core.Option.{Option, none, some}
pub use mathlib.Core.List.{List, [], ◌∷◌, ◌++◌, map}
pub use native.Mathlib.Omega.{arith}
