-- ===== src/Base.antt =====
-- What the components share: tests, lists, Go strings and maps, and the libraries' names.
mod Tests
mod Lists
mod Text
mod Assoc
mod Maps
mod Int
mod Uuid
mod Errors
pub use Tests.*
pub use Lists.*
pub use Assoc.*
pub use Text.*
pub use Maps.*
pub use Int.*
pub use Uuid.*
pub use Errors.*
unfoldable pub use Uuid.{is_hex, uuid_byte, uuid_from, is_uuid, matches_row, uuid_match}
unfoldable pub use Text.{
  GoString, lit, str_eq, cut_prefix, has_prefix, trim_prefix, span, split_at, is_space, is_space2,
  is_space3, space_width, space_width_back, strip, trim_space, is_digit, is_lower, str_le,
  insert_sorted, sort_strings,
}
unfoldable pub use Assoc.{lookup, insert, delete, keys_of}
pub use Prim.Native.Nat.{ℕ, zero, suc, ◌+◌, ◌-◌, ◌*◌, ◌/◌, ◌%◌, ◌^◌, ◌≤◌, ◌<◌}
pub use mathlib.Core.Path.{◌≡◌, refl, sym, ap, ◌∙◌}
pub use mathlib.Core.Logic.{◌≢◌, ◌↔◌, ◌⊎◌, inl, inr}
pub use mathlib.Core.Bool.{Bool, true, false, ◌&&◌, ◌||◌, not}
pub use mathlib.Core.Option.{Option, none, some}
pub use mathlib.Core.List.{List, [], ◌∷◌, ◌++◌, map, filter, Permᴰ}
pub use native.Mathlib.Omega.{arith}
