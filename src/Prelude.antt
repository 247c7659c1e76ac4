-- ===== src/Prelude.antt =====
-- The names that the modules share: the libraries', passed on, and those of the children.
pub mod Tests
pub mod Lists
pub mod Sorting
pub mod Assoc
pub mod Int
pub mod Kept
pub mod Results
pub mod Latest
pub use Tests.*
pub use Lists.{
  length, get_elem?, take, drop, keep, any, In, All, contains, length-append, length-keep-le,
  In-append, In-append_left, In-append_right, In-keep, In-keep_of, All-In, All-of_In, In-map,
  In-map_inv, length-map, contains→In, In→contains, All-append, All-split, contains-dedupe_from,
  any_sound, any_complete,
}
pub use Sorting.{
  In-sort_by, length-sort_by, contains-sort_by, Distinct, sort_by-Distinct, InOrder,
  sort_by-InOrder,
}
unfoldable pub use Sorting.{sort_by}
unfoldable pub use Lists.{dedupe_from}
pub use Int.{ℤ, pos, negsuc, pos_part, neg_part, ltb_ℤ, leb_ℤ}
pub use Prim.Native.Nat.{ℕ, zero, suc, ◌+◌, ◌-◌, ◌*◌, ◌/◌, ◌%◌, ◌≤◌, ◌<◌}
pub use Prim.Native.String.{String}
pub use mathlib.Core.Path.{◌≡◌, refl, sym, ap, subst, ◌∙◌}
pub use mathlib.Core.Logic.{◌≢◌, ◌↔◌, ◌⊎◌, inl, inr}
pub use mathlib.Core.Bool.{Bool, true, false, not, ◌&&◌, ◌||◌}
pub use mathlib.Core.Option.{Option, none, some}
pub use mathlib.Core.List.{List, [], ◌∷◌, ◌++◌, map, reverse}
pub use native.Mathlib.Omega.{arith}
