-- ===== src/Base/Float.antt =====
-- Go's float64, as an interface: the arithmetic and the notation are IEEE 754's and strconv's.
use flickr.Base.Text.{Bytes}
use flickr.Base.Int.{ℤ}
use Prim.Native.Nat.{ℕ}
use mathlib.Core.Bool.{Bool}
use mathlib.Core.Option.{Option}

pub record Floats : Type 1 where
  pub Float : Type 0
  -- `<` and `<=`: false when an operand is NaN.
  pub lt : Float → Float → Bool
  pub le : Float → Float → Bool
  -- The float nearest to p / q: the constants of the source.
  pub lit : ℕ → ℕ → Float
  -- float64(n)
  pub of_int : ℤ → Float
  pub add : Float → Float → Float
  pub sub : Float → Float → Float
  pub mul : Float → Float → Float
  pub div : Float → Float → Float
  -- Go's `min`: NaN where an operand is.
  pub least : Float → Float → Float
  -- int(x): truncates towards zero.
  pub to_int : Float → ℤ
  pub floor : Float → Float
  -- neither an infinity nor NaN
  pub is_finite : Float → Bool
  -- strconv.FormatFloat(x, 'f', -1, 64)
  pub format : Float → Bytes
  -- %.3f
  pub format_3 : Float → Bytes
  -- %.6f
  pub format_6 : Float → Bytes
  -- strconv.ParseFloat(s, 64); none for a syntax or range error.
  pub parse : Bytes → Option Float
