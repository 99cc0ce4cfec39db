-- ===== src/Base.antt =====
-- The names that every part shares: those of the libraries, passed on, Boolean tests, lists and
-- texts over the native numbers.
mod Tests
mod Lists
mod Strings
pub mod Int
pub mod Options
pub mod Results
pub mod Dict
pub use Tests.*
pub use Lists.*
unfoldable pub use Strings.{
  text_eq, starts_with, ends_with, contains, split_at_byte, get_range, is_ascii,
}
pub use Strings.*
pub use Prim.Native.Nat.{ℕ, zero, suc, ◌+◌, ◌-◌, ◌*◌, ◌/◌, ◌%◌, ◌^◌, ◌≤◌, ◌<◌, min, max}
pub use mathlib.Core.Path.{◌≡◌, refl, sym, ap, ◌∙◌}
pub use mathlib.Core.Logic.{◌≢◌, ◌↔◌, ◌⊎◌, inl, inr}
pub use mathlib.Core.Bool.{Bool, true, false, not, ◌&&◌, ◌||◌}
pub use mathlib.Core.Option.{Option, none, some}
pub use mathlib.Core.List.{List, [], ◌∷◌, ◌++◌, map, append-nil, append_assoc}
pub use native.Mathlib.Omega.{arith}
