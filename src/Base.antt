-- ===== src/Base.antt =====
-- What the components share: the library's names, Go's strings as byte lists, its integers, its
-- floats as an interface, and the decimal notation of `fmt` and `strconv`.
mod Tests
mod Lists
pub mod Text
pub mod Decimal
pub mod Int
pub mod Trim
pub mod Float
pub mod Whole
pub mod Sort
pub mod Order
pub mod Turn
pub mod FilePath
pub mod Base64
pub mod Assoc
pub use Tests.*
pub use Lists.*
pub use Prim.Native.Nat.{ℕ, zero, suc, ◌+◌, ◌-◌, ◌*◌, ◌/◌, ◌%◌, ◌^◌, ◌≤◌, ◌<◌, min, max}
pub use Prim.Native.String.{String}
pub use mathlib.Core.Path.{◌≡◌, refl, sym, ap, ap₂, subst, ◌∙◌}
pub use mathlib.Core.Logic.{◌≢◌, ◌↔◌, ◌⊎◌, inl, inr}
pub use mathlib.Core.Bool.{Bool, true, false, not, ◌&&◌, ◌||◌}
pub use mathlib.Core.Option.{Option, none, some}
pub use mathlib.Core.List.{List, [], ◌∷◌, ◌++◌, map, Mem}
pub use native.Mathlib.Omega.{arith}
unfoldable pub use Lists.{contains}
pub use Text.{Bytes, cut_prefix-some, bytes_beq_iff, bytes_eq, ne_by_test}
unfoldable pub use Text.{str, bytes_beq, join, cut_prefix, cut_byte, split_byte}
unfoldable pub use Decimal.{show, show_02, value}
pub use Decimal.{
  is_digit, IsDigit, value-show, show-digits, show-ne-nil, value-append, length-show, Leads,
  show-Leads, value-≥, ten_to,
}
pub use Int.{
  difference, pos_part, neg_part, parts-+ℤ, parts-negate, lt_int-<ℤ, ℤ, pos, negsuc, int_eq,
  int_beq_iff, le_int_iff, not_le_int, not_lt_int_iff, le_int-false_iff, <ℤ_trans, ≤ℤ_trans,
  ≤ℤ_refl, min_int-le_left, min_int-le_right, min_int-pos,
}
unfoldable pub use Int.{
  ◌≤ℤ◌, ◌<ℤ◌, int_beq, le_int, lt_int, min_int, quot, show_int, show_02_int, ◌+ℤ◌, negate, times,
  signed_64, int_64,
}
