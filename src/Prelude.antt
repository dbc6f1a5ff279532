-- ===== src/Prelude.antt =====
-- The names that the other modules share: the libraries' names, passed on, and those of the
-- children (Boolean tests, lists over the native numbers, bits of machine words).
mod Tests
mod Lists
pub mod Word
mod Int
pub use Int.*
pub use Tests.*
pub use Lists.*
pub use Prim.Native.Nat.{ℕ, zero, suc, ◌+◌, ◌-◌, ◌*◌, ◌/◌, ◌%◌, ◌^◌, ◌≤◌, ◌<◌}
pub use mathlib.Core.Path.{◌≡◌, refl, sym, ap, ◌∙◌}
pub use mathlib.Core.Logic.{◌≢◌, ◌↔◌, ◌⊎◌, inl, inr}
pub use mathlib.Core.Bool.{Bool, true, false, not, ◌&&◌, ◌||◌}
pub use mathlib.Core.Option.{Option, none, some}
pub use mathlib.Core.List.{List, [], ◌∷◌, ◌++◌}
pub use native.Mathlib.Omega.{arith}
