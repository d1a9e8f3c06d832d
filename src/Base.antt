-- ===== src/Base.antt =====
-- The names that the other modules share: the libraries', passed on, and those of the children.
mod Bools
mod Lists
mod Texts
mod Maps
mod Int
mod Decimal
pub use Bools.*
pub use Lists.*
pub use Texts.{
  Text, codes, text_eq_refl, text_eq_iff, is_empty, ascii_lower, ascii_upper, Casing, to_lower,
  to_upper, contains, Free, cut-append, cut-none_of_Free, append_of_cut, cut_prefix-append,
  append_of_cut_prefix, has_suffix-append,
}
unfoldable pub use Texts.{text_eq, cut, split, cut_prefix, has_suffix}
pub use Maps.{Map, get-put, get-remove}
unfoldable pub use Maps.{get, put, remove}
pub use Int.*
pub use Decimal.{parse_uint-format_uint}
unfoldable pub use Decimal.{parse_uint, format_uint}
pub use Prim.Native.Nat.{ℕ, zero, suc, ◌+◌, ◌-◌, ◌*◌, ◌/◌, ◌%◌, ◌^◌, ◌≤◌, ◌<◌, max, min}
pub use Prim.Native.String.{String}
pub use mathlib.Core.Path.{◌≡◌, refl, sym, ap, ◌∙◌}
pub use mathlib.Core.Logic.{◌≢◌, ◌↔◌, ◌⊎◌, inl, inr}
pub use mathlib.Core.Bool.{Bool, true, false, not, ◌&&◌, ◌||◌}
pub use mathlib.Core.Option.{Option, none, some}
pub use mathlib.Core.List.{List, [], ◌∷◌, ◌++◌, map, append_assoc, append-nil, map-append}
pub use native.Mathlib.Omega.{arith}
