-- ===== src/Base.antt =====
-- The names that the other modules share: the libraries' names passed on, tests on numbers,
-- lists measured by native numbers, machine words, byte strings and their equality.
pub mod Tests
pub mod Lists
pub mod Equality
pub mod Words
pub mod Text
pub mod Int
pub mod Outcomes
pub mod BigEndian
pub mod Decimal
pub mod Split
pub mod Lines
pub use Tests.*
pub use Lists.*
pub use Equality.*
pub use Words.*
pub use Outcomes.{Result, ok, err, panic, ◌>>=◌}
pub use Prim.Native.Nat.{ℕ, zero, suc, ◌+◌, ◌-◌, ◌*◌, ◌/◌, ◌%◌, ◌^◌, ◌≤◌, ◌<◌, bit_and}
pub use mathlib.Core.Path.{◌≡◌, refl, sym, ap, ◌∙◌, subst}
pub use mathlib.Core.Logic.{◌≢◌, ◌↔◌, ◌⊎◌, inl, inr}
pub use mathlib.Core.Bool.{Bool, true, false, not, ◌&&◌, ◌||◌}
pub use mathlib.Core.Option.{Option, none, some}
pub use mathlib.Core.List.{List, [], ◌∷◌, ◌++◌, map, append-nil, append_assoc}
pub use native.Mathlib.Omega.{arith}
