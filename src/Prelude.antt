-- ===== src/Prelude.antt =====
-- Names that the models share: the libraries', passed on, and those of the modules below.
pub mod Tests
pub mod Lists
pub mod Int
pub mod Classes
pub mod Maps
pub mod Memory
pub mod Options
pub mod Text
pub mod Search
pub use Tests.*
pub use Lists.*
pub use Int.*
pub use Classes.*
unfoldable pub use Maps.*
pub use Memory.*
pub use Prim.Native.Nat.{ℕ, zero, suc, ◌+◌, ◌-◌, ◌*◌, ◌/◌, ◌%◌, ◌^◌, ◌≤◌, ◌<◌, bit_and}
pub use mathlib.Core.Path.{◌≡◌, refl, sym, ap, subst, ◌∙◌}
pub use mathlib.Core.Logic.{◌≢◌, ◌↔◌, ◌⊎◌, inl, inr}
pub use mathlib.Core.Bool.{Bool, true, false, not, ◌&&◌, ◌||◌}
pub use mathlib.Core.Option.{Option, none, some}
pub use mathlib.Core.List.{List, [], ◌∷◌, ◌++◌, map}
pub use native.Mathlib.Omega.{arith}
