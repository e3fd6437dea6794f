-- ===== src/Base/Trim.antt =====
-- strings.TrimSpace: Unicode white space at both ends of a UTF-8 text.
pub mod Framed
use flickr.Base.Tests.{leb, ◌==◌, nat_eq, if◌then◌else◌}
use flickr.Base.Lists.{length}
use flickr.Base.Text.{Bytes}
use Prim.Native.Nat.{ℕ, zero, suc}
use mathlib.Core.Bool.{Bool, ◌&&◌, ◌||◌}
use mathlib.Core.List.{[], ◌∷◌, reverse}
use mathlib.Core.Option.{Option, none, some}

-- Tab, line feed, vertical tab, form feed, carriage return, space.
unfoldable pub is_space : ℕ → Bool
is_space c = (leb 9 c && leb c 13) || c == 32

-- U+0085 and U+00A0.
is_wide_2 : ℕ → ℕ → Bool
is_wide_2 a b = a == 0xc2 && (b == 0x85 || b == 0xa0)

-- U+1680, U+2000 to U+200A, U+2028, U+2029, U+202F, U+205F and U+3000.
is_wide_3 : ℕ → ℕ → ℕ → Bool
is_wide_3 a b c =
    (a == 0xe1 && b == 0x9a && c == 0x80)
    || (a == 0xe2
        && b == 0x80
        && ((leb 0x80 c && leb c 0x8a) || c == 0xa8 || c == 0xa9 || c == 0xaf))
    || (a == 0xe2 && b == 0x81 && c == 0x9f)
    || (a == 0xe3 && b == 0x80 && c == 0x80)

-- The text behind one leading space.
unfoldable pub after_space : Bytes → Option Bytes
unfolding is_space is_wide_2 is_wide_3
after_space [] = none
after_space (a ∷ []) = if is_space a then some [] else none
after_space (a ∷ b ∷ []) =
    if is_space a then some (b ∷ []) else if is_wide_2 a b then some [] else none
after_space (a ∷ b ∷ c ∷ s) =
    if is_space a
    then some (b ∷ c ∷ s)
    else if is_wide_2 a b
    then some (c ∷ s)
    else if is_wide_3 a b c
    then some s
    else none

-- The same at the end of a text that is given backwards.
unfoldable before_space : Bytes → Option Bytes
before_space [] = none
before_space (a ∷ []) = if is_space a then some [] else none
before_space (a ∷ b ∷ []) =
    if is_space a then some (b ∷ []) else if is_wide_2 b a then some [] else none
before_space (a ∷ b ∷ c ∷ s) =
    if is_space a
    then some (b ∷ c ∷ s)
    else if is_wide_2 b a
    then some (c ∷ s)
    else if is_wide_3 c b a
    then some s
    else none

-- Every round drops a byte, so the length is fuel enough.
unfoldable drop_while : ℕ → (Bytes → Option Bytes) → Bytes → Bytes
drop_while zero step s = s
drop_while (suc f) step s = elim (step s) [ none ↦ s | some s' ↦ drop_while f step s' ]

unfoldable pub trim_space : Bytes → Bytes
unfolding drop_while is_space is_wide_2 is_wide_3 after_space before_space
trim_space s =
    let t = drop_while (length s) after_space s in
    reverse (drop_while (length t) before_space (reverse t))
