-- ===== src/Prelude.antt =====
-- The names that the other modules share: the libraries', passed on, and those of the children.
mod Tests
mod Lists
mod Strings
mod Lines
pub mod Words
pub use Tests.*
pub use Lists.*
unfoldable pub use Strings.{
  equal, has_prefix, index_byte, trim_space, to_upper, to_lower, split, join,
}
unfoldable pub use Lines.{trim_newlines, fields}
pub use Lines.{
  newline, OneLine, split-ne-nil, split-OneLine, split-append, join-cons, join-split, split-join,
  join-append_nil, trim_newlines_parts, trim_newlines-append, trim_newlines_idem,
}
pub use Strings.{Text, bytes, equal_iff, equal_refl, has_prefix-append}
pub use Prim.Native.Nat.{ℕ, zero, suc, ◌+◌, ◌-◌, ◌*◌, ◌/◌, ◌%◌, ◌≤◌, ◌<◌}
pub use Prim.Native.String.{String}
pub use mathlib.Core.Path.{◌≡◌, refl, sym, ap, ◌∙◌, subst}
pub use mathlib.Core.Logic.{◌≢◌, ◌↔◌, ◌⊎◌, inl, inr}
pub use mathlib.Core.Bool.{Bool, true, false, not, ◌&&◌, ◌||◌}
pub use mathlib.Core.Option.{Option, none, some}
pub use mathlib.Core.List.{List, [], ◌∷◌, ◌++◌, map}
pub use native.Mathlib.Omega.{arith}
