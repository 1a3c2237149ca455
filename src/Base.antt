-- ===== src/Base.antt =====
-- Names that every module of the development shares: the libraries', passed on, and those of the
-- children below, which hold Boolean tests, lists over the native numbers, dictionaries, texts,
-- results, sorting, sorted sets, paths, best values, integers and nested loops. No code of the program is modelled here.
mod Tests
mod Lists
mod Results
mod Dicts
mod Texts
mod Keyed
mod Sorting
mod Flat
mod Paths
mod Ascending
mod Best
mod Int
pub use Tests.*
pub use Lists.*
pub use Results.*
pub use Dicts.*
unfoldable pub use Texts.*
pub use Keyed.*
unfoldable pub use Sorting.*
pub use Flat.*
unfoldable pub use Paths.*
unfoldable pub use Ascending.*
pub use Best.*
pub use Int.*
pub use Prim.Native.Nat.{ℕ, zero, suc, ◌+◌, ◌-◌, ◌*◌, ◌/◌, ◌%◌, ◌^◌, ◌≤◌, ◌<◌}
pub use Prim.Native.String.{String}
pub use text.Mathlib.TextEquality.{eq_iff}
pub use text.Mathlib.TextPositions.{eq_refl}
pub use mathlib.Core.Path.{◌≡◌, refl, sym, ap, ◌∙◌, subst}
pub use mathlib.Core.Logic.{◌≢◌, ◌↔◌, ◌⊎◌, inl, inr, ite}
pub use mathlib.Core.Bool.{Bool, true, false, not, ◌&&◌, ◌||◌, cond}
pub use mathlib.Core.Option.{Option, none, some}
pub use mathlib.Core.List.{List, [], ◌∷◌, ◌++◌, map}
pub use native.Mathlib.Omega.{arith}
unfoldable pub use native.Mathlib.Decide.{dec_lt, dec_le, ℕ_discrete}
