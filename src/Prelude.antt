-- ===== src/Prelude.antt =====
-- The names that the other modules share: the libraries', passed on, and those of the children.
mod Tests
mod Lists
mod Text
mod Maps
mod Numerals
mod Sort
pub use Tests.*
pub use Lists.*
pub use Text.{
  codes, template, any_char, all_chars, is_space, is_blank, has_newline, is_control, has_prefix,
  includes_text, trim, is_one_line, strip_prefix, skip_spaces, starts_with_space,
}
unfoldable pub use Text.{text_lt, strip_suffix}
unfoldable pub use Maps.{has, distinct, lookup, insert, index_from, index}
pub use Maps.{
  lookup-insert, last_with, lookup-index, has-append, distinct-filter, has-distinct, has-filter,
}
unfoldable pub use Numerals.{decimal, positive_integer}
pub use Numerals.{max_safe_integer, digits_value}
unfoldable pub use Sort.{put_sorted, sort_by}
pub use Sort.{
  any-sort_by, all-sort_by, total, total-append, total-sort_by, are_in_order, in_order-sort_by,
}
pub use Prim.Native.Nat.{ℕ, zero, suc, ◌+◌, ◌-◌, ◌*◌, ◌/◌, ◌%◌, ◌≤◌, ◌<◌, max}
pub use Prim.Native.String.{String}
pub use mathlib.Core.Path.{◌≡◌, refl, sym, ap, ap₂, ◌∙◌, subst}
pub use mathlib.Core.Logic.{◌≢◌, ◌↔◌, ◌⊎◌, inl, inr}
pub use mathlib.Core.Bool.{Bool, true, false, ◌&&◌, ◌||◌, not}
pub use mathlib.Core.Option.{Option, none, some}
pub use mathlib.Core.List.{List, [], ◌∷◌, ◌++◌, map, append-nil, append_assoc}
pub use native.Mathlib.Omega.{arith}
pub use text.Mathlib.Text.{◌==◌}
pub use text.Mathlib.TextEquality.{eq_iff}
pub use text.Mathlib.TextPositions.{eq_refl}
