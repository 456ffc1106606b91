-- ===== src/Prelude.antt =====
-- The names that the other modules share: the libraries', passed on, Boolean tests and lists over
-- the native numbers, results of code that may fault, machine words and ordered keys.
mod Tests
mod Lists
mod Run
mod Word
mod Keys
unfoldable pub use Tests.*
unfoldable pub use Lists.*
unfoldable pub use Run.*
unfoldable pub use Word.*
unfoldable pub use Keys.*
pub use Prim.Native.Nat.{ℕ, zero, suc, ◌+◌, ◌-◌, ◌*◌, ◌/◌, ◌%◌, ◌^◌, ◌≤◌, ◌<◌}
pub use mathlib.Core.Path.{◌≡◌, refl, sym, ap, subst, fun_ext, ◌∙◌}
pub use mathlib.Core.Logic.{◌≢◌, ◌↔◌, ◌⊎◌, inl, inr}
pub use mathlib.Core.Bool.{Bool, true, false, ◌&&◌, ◌||◌, not}
pub use mathlib.Core.Option.{Option, none, some}
pub use mathlib.Core.List.{List, [], ◌∷◌, ◌++◌, map, append-nil, append_assoc}
pub use native.Mathlib.Omega.{arith}
