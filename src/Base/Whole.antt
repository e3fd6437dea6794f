-- ===== src/Base/Whole.antt =====
-- A model of the float interface at which the theorems are tried: the whole numbers.
use flickr.Base.Tests.{ltb, leb, if◌then◌else◌}
use flickr.Base.Text.{Bytes}
use flickr.Base.Decimal.{is_digit, show, value}
use flickr.Base.Int.{ℤ, pos, negsuc}
use flickr.Base.Float.{Floats}
use Prim.Native.Nat.{ℕ, ◌+◌, ◌-◌, ◌*◌, ◌/◌}
use mathlib.Core.Bool.{Bool, true, ◌&&◌}
use mathlib.Core.List.{[], ◌∷◌, ◌++◌}
use mathlib.Core.Option.{Option, none, some}

all_digits : Bytes → Bool
all_digits [] = true
all_digits (c ∷ s) = is_digit c && all_digits s

unfoldable pub whole_parse : Bytes → Option ℕ
unfolding all_digits
whole_parse [] = none
whole_parse (c ∷ s) = if all_digits (c ∷ s) then some (value 0 (c ∷ s)) else none

abbrev whole_part : ℤ → ℕ
whole_part (pos n) = n
whole_part (negsuc n) = 0

abbrev pub whole : Floats
whole = record {
  Float = ℕ;
  lt = ltb;
  le = leb;
  lit = λ p q. p / q;
  of_int = λ z. whole_part z;
  add = λ a b. a + b;
  sub = λ a b. a - b;
  mul = λ a b. a * b;
  div = λ a b. a / b;
  least = λ a b. if ltb b a then b else a;
  to_int = pos;
  floor = λ a. a;
  is_finite = λ a. true;
  format = show;
  format_3 = λ a. show a ++ b'.' ∷ b'0' ∷ b'0' ∷ b'0' ∷ [];
  format_6 = λ a. show a ++ b'.' ∷ b'0' ∷ b'0' ∷ b'0' ∷ b'0' ∷ b'0' ∷ b'0' ∷ [];
  parse = whole_parse;
}
