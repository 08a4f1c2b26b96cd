-- ===== src/Prelude.antt =====
-- The names that the other modules share: the libraries', passed on, and those of three children.
pub mod Tests
pub mod Lists
pub mod Text
pub mod Maybe
pub mod Sort
pub mod FlatMap
pub use Tests.*
pub use Lists.*
pub use Maybe.*
unfoldable pub use Text.{bytes_eq, bytes_lt}
pub use Text.{
  Bytes, codes, bytes_eq_iff, bytes_eq_sym, bytes_lt_irrefl, bytes_lt_trans, bytes_lt_connex,
  bytes_lt_asymm, bytes_lt_cotrans,
}
pub use Prim.Native.Nat.{ℕ, zero, suc, ◌+◌, ◌-◌, ◌*◌, ◌/◌, ◌%◌, ◌^◌, ◌≤◌, ◌<◌, min, bit_xor}
pub use mathlib.Core.Path.{◌≡◌, refl, sym, ap, ◌∙◌}
pub use mathlib.Core.Logic.{◌≢◌, ◌↔◌, ◌⊎◌, inl, inr}
pub use mathlib.Core.Bool.{Bool, true, false, not, ◌&&◌, ◌||◌}
pub use mathlib.Core.Option.{Option, none, some}
pub use mathlib.Core.List.{List, [], ◌∷◌, ◌++◌, map, append-nil, append_assoc}
pub use native.Mathlib.Omega.{arith}
