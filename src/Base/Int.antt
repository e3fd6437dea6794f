-- ===== src/Base/Int.antt =====
-- Go's signed integers, without their width: the program compares, prints and divides those that
-- come from a client or a probe, and adds none.
use flickr.Base.Tests.{leb, ltb, ◌==◌, nat_eq, if◌then◌else◌, Comparable, Bool-cases}
use flickr.Base.Text.{Bytes}
use flickr.Base.Decimal.{show, show_02}
use Prim.Native.Nat.{ℕ, zero, suc, ◌+◌, ◌-◌, ◌*◌, ◌%◌, ◌^◌, ◌/◌, ◌≤◌, ◌<◌}
use mathlib.Core.Path.{◌≡◌, refl}
use mathlib.Core.Logic.{◌↔◌, inl, inr}
use mathlib.Core.Bool.{Bool, true, false}
use mathlib.Core.List.{◌∷◌}
use native.Mathlib.Omega.{arith}

-- `negsuc n` is -(n + 1).
pub data ℤ : Type 0 where
  pos : ℕ → ℤ
  negsuc : ℕ → ℤ

unfoldable pub le_int : ℤ → ℤ → Bool
le_int (pos a) (pos b) = leb a b
le_int (pos a) (negsuc b) = false
le_int (negsuc a) (pos b) = true
le_int (negsuc a) (negsuc b) = leb b a

unfoldable pub int_beq : ℤ → ℤ → Bool
int_beq (pos a) (pos b) = a == b
int_beq (negsuc a) (negsuc b) = a == b
int_beq _ _ = false

pub int_beq_iff : (a b : ℤ) → (int_beq a b ≡ true) ↔ (a ≡ b)
unfolding int_beq
int_beq_iff (pos a) (pos b) = ground arith
int_beq_iff (pos a) (negsuc b) = ground arith
int_beq_iff (negsuc a) (pos b) = ground arith
int_beq_iff (negsuc a) (negsuc b) = ground arith

instance abbrev pub int_eq : Comparable ℤ
int_eq = record { equals = int_beq; equals_iff = int_beq_iff }

-- a < b
unfoldable pub lt_int : ℤ → ℤ → Bool
unfolding le_int
lt_int a b = elim (le_int b a) [ true ↦ false | false ↦ true ]

-- Go's `min`.
unfoldable pub min_int : ℤ → ℤ → ℤ
min_int a b = if le_int a b then a else b

-- `/` truncates towards zero.
unfoldable pub quot : ℤ → ℕ → ℤ
quot (pos a) k = pos (a / k)
quot (negsuc a) k = elim (suc a / k) [ zero ↦ pos 0 | suc q ↦ negsuc q ]

-- %d
unfoldable pub show_int : ℤ → Bytes
show_int (pos n) = show n
show_int (negsuc n) = b'-' ∷ show (suc n)

-- %02d
unfoldable pub show_02_int : ℤ → Bytes
show_02_int (pos n) = show_02 n
show_02_int (negsuc n) = show_int (negsuc n)

-- p - n
abbrev pub difference : ℕ → ℕ → ℤ
difference p n = if leb n p then pos (p - n) else negsuc (n - p - 1)

abbrev pub pos_part : ℤ → ℕ
pos_part (pos n) = n
pos_part (negsuc n) = 0

abbrev pub neg_part : ℤ → ℕ
neg_part (pos n) = 0
neg_part (negsuc n) = suc n

infixl 60 ◌+ℤ◌
unfoldable pub ◌+ℤ◌ : ℤ → ℤ → ℤ
a +ℤ b = difference (pos_part a + pos_part b) (neg_part a + neg_part b)

-- - a
unfoldable pub negate : ℤ → ℤ
negate a = difference (neg_part a) (pos_part a)

-- a * k, for a factor k that is no less than 0
unfoldable pub times : ℤ → ℕ → ℤ
times a k = difference (pos_part a * k) (neg_part a * k)

-- A number of 64 bits, read as signed.
unfoldable pub signed_64 : ℕ → ℤ
signed_64 n = if ltb n (2 ^ 63) then pos n else negsuc (2 ^ 64 - 1 - n)

-- What an int64 keeps of a number.
unfoldable pub int_64 : ℤ → ℤ
int_64 a = signed_64 ((pos_part a % 2 ^ 64 + (2 ^ 64 - neg_part a % 2 ^ 64)) % 2 ^ 64)

infix 50 ◌≤ℤ◌
-- The order itself, apart from Go's test.
unfoldable pub ◌≤ℤ◌ : ℤ → ℤ → Type 0
a ≤ℤ b = pos_part a + neg_part b ≤ pos_part b + neg_part a

pub le_int_iff : (a b : ℤ) → (le_int a b ≡ true) ↔ (a ≤ℤ b)
unfolding le_int ◌≤ℤ◌
le_int_iff (pos a) (pos b) = ground arith
le_int_iff (pos a) (negsuc b) = ground arith
le_int_iff (negsuc a) (pos b) = ground arith
le_int_iff (negsuc a) (negsuc b) = ground arith

pub not_le_int : (a b : ℤ) → le_int a b ≡ false → b ≤ℤ a
unfolding le_int ◌≤ℤ◌
not_le_int (pos a) (pos b) h = ground arith
not_le_int (pos a) (negsuc b) h = ground arith
not_le_int (negsuc a) (pos b) h = ground arith
not_le_int (negsuc a) (negsuc b) h = ground arith

pub ≤ℤ_trans : (a b c : ℤ) → a ≤ℤ b → b ≤ℤ c → a ≤ℤ c
unfolding ◌≤ℤ◌
≤ℤ_trans a b c h k = omega arith

pub ≤ℤ_refl : (a : ℤ) → a ≤ℤ a
unfolding ◌≤ℤ◌
≤ℤ_refl a = omega arith

pub min_int-le_left : (a b : ℤ) → min_int a b ≤ℤ a
unfolding min_int
min_int-le_left a b =
    elim (le_int a b) as (λ t. (le_int a b ≡ t → (if t then a else b) ≤ℤ a)) [
      | true ↦ λ h. ≤ℤ_refl a
      | false ↦ λ h. not_le_int a b h
    ]
      refl

-- The negated test.
pub not_lt_int_iff : (a b : ℤ) → (lt_int a b ≡ false) ↔ (b ≤ℤ a)
unfolding lt_int
not_lt_int_iff a b =
    (λ h. (le_int_iff b a).0 (ground arith), λ h. ground (arith, (le_int_iff b a).1 h))

infix 50 ◌<ℤ◌
unfoldable pub ◌<ℤ◌ : ℤ → ℤ → Type 0
a <ℤ b = pos_part a + neg_part b < pos_part b + neg_part a

pub le_int-false_iff : (a b : ℤ) → (le_int a b ≡ false) ↔ (b <ℤ a)
unfolding le_int ◌<ℤ◌
le_int-false_iff (pos a) (pos b) = ground arith
le_int-false_iff (pos a) (negsuc b) = ground arith
le_int-false_iff (negsuc a) (pos b) = ground arith
le_int-false_iff (negsuc a) (negsuc b) = ground arith

pub <ℤ_trans : (a b c : ℤ) → a <ℤ b → b <ℤ c → a <ℤ c
unfolding ◌<ℤ◌
<ℤ_trans a b c h k = omega arith

pub min_int-le_right : (a b : ℤ) → min_int a b ≤ℤ b
unfolding min_int
min_int-le_right a b = elim (Bool-cases (le_int a b)) [
  | inl h ↦ rw (h, if◌then◌else◌) ((le_int_iff a b).0 h)
  | inr h ↦ rw (h, if◌then◌else◌) (≤ℤ_refl b)
]

int_pos : (a : ℤ) → pos 0 <ℤ a → int_beq a (pos 0) ≡ false
unfolding int_beq ◌<ℤ◌
int_pos (pos n) h = ground arith
int_pos (negsuc n) h = refl

pub min_int-pos : (a b : ℤ) → pos 0 <ℤ a → pos 0 <ℤ b → int_beq (min_int a b) (pos 0) ≡ false
unfolding min_int
min_int-pos a b h k = elim (Bool-cases (le_int a b)) [
  | inl e ↦ rw (e, if◌then◌else◌) (int_pos a h)
  | inr e ↦ rw (e, if◌then◌else◌) (int_pos b k)
]

difference_lem : (p n : ℕ) → pos_part (difference p n) + n ≡ neg_part (difference p n) + p
difference_lem p n = ground arith

-- A sum and an opposite, on the parts of a number.
pub parts-+ℤ :
    (a b : ℤ)
    → pos_part (a +ℤ b) + (neg_part a + neg_part b) ≡ neg_part (a +ℤ b) + (pos_part a + pos_part b)
unfolding ◌+ℤ◌
parts-+ℤ a b = difference_lem (pos_part a + pos_part b) (neg_part a + neg_part b)

pub parts-negate : (a : ℤ) → pos_part (negate a) + pos_part a ≡ neg_part (negate a) + neg_part a
unfolding negate
parts-negate a = difference_lem (neg_part a) (pos_part a)

pub lt_int-<ℤ : (a b : ℤ) → lt_int a b ≡ true → a <ℤ b
unfolding lt_int
lt_int-<ℤ a b h = elim (Bool-cases (le_int b a)) [
  | inl le ↦ absurd (cc (rw (le, lt_int) at h))
  | inr gt ↦ (le_int-false_iff b a).0 gt
]
