-- ===== src/Prelude.antt =====
-- The names that the other modules share: the libraries', passed on, and those of the children.
pub mod Equality
pub mod Int
pub mod Lists
pub mod Dict
pub mod Sorted
pub mod Sets
pub mod Text
pub use Equality.{
  ◌==◌, Eq, if◌then◌else◌, contains, Bool-cases, Option-cases, ltb, leb, ltb→lt, leb→le, or_else,
  differs, if_both,
}
unfoldable pub use Equality.{string_eq, nat_eq}
pub use Lists.{
  length, length-append, All, get_elem?, get_elem?-replace, get_elem?-append_self, All-get_elem?,
}
pub use Prim.Native.Nat.{ℕ, zero, suc, ◌+◌, ◌-◌, ◌*◌, ◌/◌, ◌%◌, ◌^◌, ◌≤◌, ◌<◌}
pub use Prim.Native.String.{String}
pub use mathlib.Core.Path.{◌≡◌, refl, sym, ap, ◌∙◌, subst}
pub use mathlib.Core.Logic.{◌≢◌, ◌↔◌, ◌⊎◌, inl, inr}
pub use mathlib.Core.Bool.{Bool, true, false, ◌&&◌, ◌||◌, not}
pub use mathlib.Core.Option.{Option, none, some}
pub use mathlib.Core.List.{List, [], ◌∷◌, ◌++◌, map}
pub use native.Mathlib.Omega.{arith}
unfoldable pub use native.Mathlib.Decide.{ℕ_discrete}
