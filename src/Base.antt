-- ===== src/Base.antt =====
-- Names that every module shares: the libraries', passed on, Boolean tests on native numbers,
-- machine words, and lists measured by native numbers.
mod Tests
mod Words
mod Lists
mod Ends
mod Int
mod Linked
pub use Tests.*
pub use Words.*
pub use Lists.*
pub use Ends.*
pub use Int.*
pub use Linked.*
pub use Prim.Native.Nat.{ℕ, zero, suc, ◌+◌, ◌-◌, ◌*◌, ◌/◌, ◌%◌, ◌^◌, ◌≤◌, ◌<◌}
pub use mathlib.Core.Path.{◌≡◌, refl, sym, ap, ◌∙◌}
pub use mathlib.Core.Logic.{◌≢◌, ◌↔◌, ◌⊎◌, inl, inr}
pub use mathlib.Core.Bool.{Bool, true, false, not, ◌&&◌, ◌||◌}
pub use mathlib.Core.Option.{Option, none, some}
pub use mathlib.Core.List.{List, [], ◌∷◌, ◌++◌, map}
pub use native.Mathlib.Omega.{arith}
