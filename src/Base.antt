-- ===== src/Base.antt =====
-- The names that the other modules share: the libraries', passed on, and those of the children.
mod Tests
mod Lists
mod Table
mod Select
mod Sorting
mod Assoc
mod Int
mod Values
pub use Tests.*
pub use Lists.*
pub use Table.{
  update_where-none, count_where-append, first_where-count, first_where-holds, count_where-update,
  count_where-clears, count_where-update-le, count_where_mono, count_where-first, All-update_where,
  first_where-All, first_where-last, count_where-cleared, count_where-split, count_where-hit,
  first_where-added, count_where-marks,
}
unfoldable pub use Table.{update_where, count_where, first_where, select_where, update_first}
pub use Select.{
  select_where-append, select_where-none, append_nil, first_where-append, first_where_here,
  first_where-between, first_where-later, first_where-select_where, append_assoc, length-map,
}
pub use Sorting.{count_where-sort_by, length-sort_by, All-sort_by, IsSortedBy, sort_by-IsSortedBy}
unfoldable pub use Sorting.{sort_by}
pub use Assoc.{
  get_key-put_key, HasDistinctKeys, put_key-HasDistinctKeys, get_key-keep_none,
  keep_if-HasDistinctKeys,
}
unfoldable pub use Assoc.{get_key, put_key, keep_if}
pub use Int.{ℤ, pos, negsuc, pos_part, neg_part, ltb_ℤ, leb_ℤ, eq_ℤ, +ℤ_cancel}
unfoldable pub use Int.{◌+ℤ◌, ◌-ℤ◌}
pub use Values.{Json, null, bool, num, str, arr, obj, Items, nil, cons, Fields, end, field}
unfoldable pub use Values.{get_field, put_field}
pub use Prim.Native.Nat.{ℕ, zero, suc, ◌+◌, ◌-◌, ◌*◌, ◌/◌, ◌%◌, ◌^◌, ◌≤◌, ◌<◌, min, max}
pub use Prim.Native.String.{String}
pub use mathlib.Core.Path.{◌≡◌, refl, sym, ap, subst, ◌∙◌}
pub use mathlib.Core.Logic.{◌≢◌, ◌↔◌, ◌⊎◌, inl, inr}
pub use mathlib.Core.Bool.{Bool, true, false, ◌&&◌, ◌||◌, not}
pub use mathlib.Core.Option.{Option, none, some}
pub use mathlib.Core.List.{List, [], ◌∷◌, ◌++◌, map}
pub use native.Mathlib.Omega.{arith}
pub use text.Mathlib.TextEquality.{eq_iff}
