-- ===== src/Base.antt =====
-- What the components share: the libraries' names, tests, lists, texts and results.
mod Tests
mod Lists
mod Results
pub mod Text
pub mod Append
pub mod Numbers
mod TextOrder
pub use Tests.*
pub use Lists.*
pub use Results.*
pub use TextOrder.{
  text_lt, text_lt-either, text_lt_trans, text_lt_irrefl, text_asym, not_before_trans,
}
unfoldable pub use Text.{trim}
pub use Prim.Native.Nat.{ℕ, zero, suc, ◌+◌, ◌-◌, ◌*◌, ◌/◌, ◌%◌, ◌^◌, ◌≤◌, ◌<◌, max}
pub use Prim.Native.String.{String}
pub use mathlib.Core.Path.{◌≡◌, refl, sym, ap, ◌∙◌, subst, fun_ext}
pub use mathlib.Core.Logic.{◌≢◌, ◌↔◌, ◌⊎◌, inl, inr, ⊎_elim}
pub use mathlib.Core.Bool.{Bool, true, false, not, ◌&&◌, ◌||◌}
pub use mathlib.Core.Option.{Option, none, some}
pub use mathlib.Core.List.{List, [], ◌∷◌, ◌++◌, map}
pub use native.Mathlib.Omega.{arith}
pub use text.Mathlib.Text.{◌==◌}
pub use text.Mathlib.TextEquality.{eq_iff}
pub use text.Mathlib.TextPositions.{eq_refl}
