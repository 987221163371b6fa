-- ===== src/Prelude.antt =====
-- Names that every module shares: those of the libraries, passed on, and the tests, lists and
-- signed numbers of the children.
mod Tests
mod Lists
mod Int
mod Options
mod Pigeonhole
pub use Tests.*
pub use Lists.*
pub use Int.*
pub use Options.*
pub use Pigeonhole.{pigeonhole}
pub use Prim.Native.Nat.{ℕ, zero, suc, ◌+◌, ◌-◌, ◌*◌, ◌/◌, ◌%◌, ◌^◌, ◌≤◌, ◌<◌, min}
pub use mathlib.Core.Path.{◌≡◌, refl, sym, ap, ◌∙◌}
pub use mathlib.Core.Logic.{◌≢◌, ◌↔◌, ◌⊎◌, inl, inr}
pub use mathlib.Core.Bool.{Bool, true, false, not, ◌&&◌, ◌||◌}
pub use mathlib.Core.Option.{Option, none, some}
pub use mathlib.Core.List.{List, [], ◌∷◌, ◌++◌, map}
pub use native.Mathlib.Omega.{arith}
unfoldable pub use native.Mathlib.Decide.{dec_lt, ℕ_discrete}
