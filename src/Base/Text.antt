-- ===== src/Base/Text.antt =====
-- Go's strings: sequences of bytes. A literal of the source is its UTF-8 encoding.
use Prim.Native.Nat.{ℕ, ◌+◌, ◌/◌, ◌%◌}
use Prim.Native.Char.{code}
use Prim.Native.String.{String}
use mathlib.Core.Path.{◌≡◌, refl}
use mathlib.Core.Logic.{◌↔◌, ◌≢◌, inl, inr}
use mathlib.Core.Bool.{Bool, true, false, ◌&&◌}
use mathlib.Core.List.{List, [], ◌∷◌, ◌++◌}
use mathlib.Core.Option.{Option, none, some}
use native.Mathlib.Omega.{arith}
use flickr.Base.Tests.{Bool-cases, some_inj, Comparable, ◌==◌, nat_eq, ltb, if◌then◌else◌}

abbrev pub Bytes : Type 0
Bytes = List ℕ

-- The UTF-8 bytes of one code point, before the bytes `rest`.
utf8 : ℕ → Bytes → Bytes
utf8 c rest =
    if ltb c 0x80
    then c ∷ rest
    else if ltb c 0x800
    then (0xc0 + c / 64) ∷ (0x80 + c % 64) ∷ rest
    else if ltb c 0x10000
    then (0xe0 + c / 4096) ∷ (0x80 + c / 64 % 64) ∷ (0x80 + c % 64) ∷ rest
    else (0xf0 + c / 262144)
      ∷ (0x80 + c / 4096 % 64)
      ∷ (0x80 + c / 64 % 64)
      ∷ (0x80 + c % 64)
      ∷ rest

-- A string literal.
unfoldable pub str : String → Bytes
unfolding utf8
str String.[] = []
str (String.◌∷◌ c s) = utf8 (code c) (str s)

unfoldable pub bytes_beq : Bytes → Bytes → Bool
bytes_beq [] [] = true
bytes_beq [] (y ∷ ys) = false
bytes_beq (x ∷ xs) [] = false
bytes_beq (x ∷ xs) (y ∷ ys) = x == y && bytes_beq xs ys

beq→eq : (a b : Bytes) → bytes_beq a b ≡ true → a ≡ b
unfolding bytes_beq
beq→eq [] [] h = refl
beq→eq [] (y ∷ ys) h = ground arith
beq→eq (x ∷ xs) [] h = ground arith
beq→eq (x ∷ xs) (y ∷ ys) h = ground (arith, beq→eq xs ys)

beq_refl : (a : Bytes) → bytes_beq a a ≡ true
unfolding bytes_beq
beq_refl [] = refl
beq_refl (x ∷ xs) = ground (arith, beq_refl xs)

pub bytes_beq_iff : (a b : Bytes) → (bytes_beq a b ≡ true) ↔ (a ≡ b)
bytes_beq_iff a b = (beq→eq a b, λ e. rw e (beq_refl b))

instance abbrev pub bytes_eq : Comparable Bytes
bytes_eq = record { equals = bytes_beq; equals_iff = bytes_beq_iff }

-- strings.Join
unfoldable pub join : Bytes → List Bytes → Bytes
join sep [] = []
join sep (p ∷ []) = p
join sep (p ∷ q ∷ ps) = p ++ (sep ++ join sep (q ∷ ps))

-- strings.CutPrefix: what follows the prefix, if it is there.
unfoldable pub cut_prefix : Bytes → Bytes → Option Bytes
cut_prefix s [] = some s
cut_prefix [] (p ∷ ps) = none
cut_prefix (c ∷ s) (p ∷ ps) = if c == p then cut_prefix s ps else none

-- strings.Cut at one byte: what stands before its first occurrence and behind it.
unfoldable pub cut_byte : ℕ → Bytes → Option (Bytes × Bytes)
cut_byte b [] = none
cut_byte b (c ∷ s) =
    let rest = cut_byte b s in
    if c == b
    then some ([], s)
    else elim rest [ none ↦ none | some (before, behind) ↦ some (c ∷ before, behind) ]

-- strings.Split at one byte.
unfoldable pub split_byte : ℕ → Bytes → List Bytes
split_byte b [] = [] ∷ []
split_byte b (c ∷ s) =
    let rest = split_byte b s in
    if c == b
    then [] ∷ rest
    else elim rest [ [] ↦ (c ∷ []) ∷ [] | first ∷ later ↦ (c ∷ first) ∷ later ]

-- Two texts that the test tells apart.
pub ne_by_test : {a b : Bytes} → bytes_beq a b ≡ false → a ≢ b
ne_by_test {a} {b} h e = ground (arith, (bytes_beq_iff a b).1 e)

-- The prefix that was cut stands in front.
pub cut_prefix-some : (s p rest : Bytes) → cut_prefix s p ≡ some rest → s ≡ p ++ rest
unfolding cut_prefix
cut_prefix-some s [] rest h = some_inj h
cut_prefix-some [] (b ∷ p) rest h = cc
cut_prefix-some (c ∷ s) (b ∷ p) rest h = elim (Bool-cases (c == b)) [
  | inl same ↦ ground (arith, cut_prefix-some s p rest (ground arith))
  | inr other ↦ absurd (ground arith)
]
