-- ===== src/Base.antt =====
-- The names that every module shares: those of the libraries, and those of three children (tests
-- on numbers, lists, and texts as lists of bytes).
mod Tests
mod Lists
mod Strings
mod Maps
pub mod Trimming
pub mod Splitting
pub use Tests.*
pub use Lists.*
pub use Strings.*
pub use Maps.*
unfoldable pub use Strings.{
  text_eq, starts_with, ends_with, trim_start, trim_end, split_on, join_with, lower, decimal,
  contains_byte, number_of,
}
unfoldable pub use Maps.{lookup, insert, retain}
pub use Prim.Native.Nat.{ℕ, zero, suc, ◌+◌, ◌-◌, ◌*◌, ◌/◌, ◌%◌, ◌^◌, ◌≤◌, ◌<◌, min, max}
pub use mathlib.Core.Path.{◌≡◌, refl, sym, ap, ◌∙◌, ◌≡⟨◌⟩◌, ◌∎}
pub use mathlib.Core.Logic.{◌≢◌, ◌↔◌, ◌⊎◌, inl, inr}
pub use mathlib.Core.Bool.{Bool, true, false, not, ◌&&◌, ◌||◌}
pub use mathlib.Core.Option.{Option, none, some}
pub use mathlib.Core.List.{List, [], ◌∷◌, ◌++◌, map, append-nil, append_assoc}
pub use native.Mathlib.Omega.{arith}
