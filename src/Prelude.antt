-- ===== src/Prelude.antt =====
-- What the other modules share: library names passed on, Boolean tests, lists, texts, sorting,
-- keyed dictionaries and 64-bit words.
mod Tests
mod Lists
mod Search
pub mod Text
pub mod Dict
pub mod Table
pub mod Word
pub mod Result
unfoldable pub use Tests.*
unfoldable pub use Lists.*
unfoldable pub use Search.*
pub use Prim.Native.Nat.{ℕ, zero, suc, ◌+◌, ◌-◌, ◌*◌, ◌/◌, ◌%◌, ◌^◌, ◌≤◌, ◌<◌, min}
pub use mathlib.Core.Path.{◌≡◌, refl, sym, ap, subst, ◌∙◌}
pub use mathlib.Core.Logic.{◌≢◌, ◌↔◌, ◌⊎◌, inl, inr}
pub use mathlib.Core.Bool.{Bool, true, false, not, ◌&&◌, ◌||◌}
pub use mathlib.Core.Option.{Option, none, some}
pub use mathlib.Core.List.{List, [], ◌∷◌, ◌++◌, map, reverse, reverse_aux}
pub use mathlib.Core.List.{reverse-cons, reverse-reverse, reverse-append}
pub use native.Mathlib.Omega.{arith}
pub use native.Mathlib.Nat.{zero-add, zero-mul, suc-mul, div-add-mod, mod-lt}
