-- ===== src/Prelude.antt =====
-- The names that the other modules share: the libraries', passed on, and those of the children
-- (Boolean tests, error results, lists, byte strings, 64-bit signed integers).
mod Tests
mod Outcome
mod Lists
mod ByteStrings
mod Int64
mod Members
mod Entries
unfoldable pub use Tests.*
unfoldable pub use Outcome.*
unfoldable pub use Lists.*
unfoldable pub use ByteStrings.*
unfoldable pub use Int64.*
unfoldable pub use Members.*
unfoldable pub use Entries.*
pub use Prim.Native.Nat.{ℕ, zero, suc, ◌+◌, ◌-◌, ◌*◌, ◌/◌, ◌%◌, ◌^◌, ◌≤◌, ◌<◌}
pub use Prim.Native.String.{String}
pub use mathlib.Core.Path.{◌≡◌, refl, sym, ap, ap₂, ◌∙◌, subst}
pub use mathlib.Core.Logic.{◌≢◌, ◌↔◌, ◌⊎◌, inl, inr}
pub use mathlib.Core.Bool.{Bool, true, false, not, ◌&&◌, ◌||◌}
pub use mathlib.Core.Option.{Option, none, some, some-injective}
pub use mathlib.Core.List.{
  List, [], ◌∷◌, Memᴰ, ◌++◌, map, append_assoc, append-nil, append_cancel_left,
}
pub use native.Mathlib.Omega.{arith}
