-- ===== src/Base/Decimal.antt =====
-- `%d` and `%02d` of fmt, and the digits that strconv reads.
use flickr.Base.Tests.{Bool-cases, ltb, leb, ◌==◌, nat_eq, if◌then◌else◌}
use flickr.Base.Lists.{All, All-append, length, length-append}
use flickr.Base.Text.{Bytes}
use Prim.Native.Nat.{ℕ, zero, suc, ◌+◌, ◌-◌, ◌*◌, ◌/◌, ◌%◌, ◌≤◌, ◌<◌}
use mathlib.Core.Path.{◌≡◌, refl}
use mathlib.Core.Bool.{Bool, true, false, ◌&&◌}
use mathlib.Core.Logic.{◌≢◌, inl, inr}
use mathlib.Core.List.{[], ◌∷◌, ◌++◌}
use native.Mathlib.Omega.{arith}

abbrev pub is_digit : ℕ → Bool
is_digit c = leb b'0' c && leb c b'9'

abbrev pub IsDigit : ℕ → Type 0
IsDigit c = (b'0' ≤ c) × (c ≤ b'9')

-- The last digit stands behind those of `n / 10`; the fuel is more than `n`.
show_fuel : ℕ → ℕ → Bytes
show_fuel zero n = []
show_fuel (suc f) n =
    let more = show_fuel f (n / 10) in (if n / 10 == 0 then [] else more) ++ (b'0' + n % 10) ∷ []

unfoldable pub show : ℕ → Bytes
unfolding show_fuel
show n = show_fuel (suc n) n

-- %02d
unfoldable pub show_02 : ℕ → Bytes
show_02 n = if ltb n 10 then b'0' ∷ show n else show n

-- The number that digits spell behind `n`.
unfoldable pub value : ℕ → Bytes → ℕ
value n [] = n
value n (c ∷ s) = value (n * 10 + (c - b'0')) s

pub value-append : (n : ℕ) (s t : Bytes) → value n (s ++ t) ≡ value (value n s) t
unfolding value
value-append n [] t = refl
value-append n (c ∷ s) t = value-append (n * 10 + (c - b'0')) s t

value-show_fuel : (f n : ℕ) → n < f → value 0 (show_fuel f n) ≡ n
unfolding show_fuel value
value-show_fuel zero n h = absurd (omega arith)
value-show_fuel (suc f) n h = ground (
  arith,
  value-append 0 (show_fuel f (n / 10)) ((b'0' + n % 10) ∷ []),
  value-show_fuel f (n / 10),
)

-- What `%d` prints reads back as the number.
pub value-show : (n : ℕ) → value 0 (show n) ≡ n
unfolding show
value-show n = value-show_fuel (suc n) n (omega arith)

digits_show_fuel : (f n : ℕ) → All IsDigit (show_fuel f n)
unfolding show_fuel
digits_show_fuel zero n = tt
digits_show_fuel (suc f) n =
    elim (◌==◌ (n / 10) 0)
      as (λ b. All IsDigit ((if b then [] else show_fuel f (n / 10)) ++ (b'0' + n % 10) ∷ [])) [
        | true ↦ (omega arith)
        | false ↦
            All-append IsDigit (show_fuel f (n / 10)) ((b'0' + n % 10) ∷ [])
              (digits_show_fuel f (n / 10)) (omega arith)
      ]

pub show-digits : (n : ℕ) → All IsDigit (show n)
unfolding show
show-digits n = digits_show_fuel (suc n) n

pub show-ne-nil : (n : ℕ) → show n ≢ []
unfolding show show_fuel
show-ne-nil n e = snoc-ne-nil (if n / 10 == 0 then [] else show_fuel n (n / 10)) (b'0' + n % 10) e
  where
    snoc-ne-nil : (s : Bytes) (c : ℕ) → s ++ c ∷ [] ≡ [] → ⊥
    snoc-ne-nil [] c e = cc
    snoc-ne-nil (d ∷ s) c e = cc

-- 10^k
abbrev pub ten_to : ℕ → ℕ
ten_to zero = 1
ten_to (suc k) = 10 * ten_to k

length-show_fuel : (f k n : ℕ) → n < ten_to (suc k) → length (show_fuel f n) ≤ suc k
unfolding show_fuel
length-show_fuel zero k n h = omega arith
length-show_fuel (suc f) zero n h = ground (arith)
length-show_fuel (suc f) (suc k) n h = ground (
  arith,
  length-append (show_fuel f (n / 10)) ((b'0' + n % 10) ∷ []),
  length-show_fuel f k (n / 10),
)

-- A number below 10^(k + 1) has at most k + 1 digits.
pub length-show : (k n : ℕ) → n < ten_to (suc k) → length (show n) ≤ suc k
unfolding show
length-show k n h = length-show_fuel (suc n) k n h

abbrev pub Leads : Bytes → Type 0
Leads [] = ⊥
Leads (c ∷ s) = c ≢ b'0'

append-Leads : (s t : Bytes) → Leads s → Leads (s ++ t)
append-Leads [] t h = absurd h
append-Leads (c ∷ s) t h = h

show_fuel-Leads : (f n : ℕ) → n < f → 1 ≤ n → Leads (show_fuel f n)
unfolding show_fuel
show_fuel-Leads zero n h p = absurd (omega arith)
show_fuel-Leads (suc f) n h p = elim (Bool-cases (n / 10 == 0)) [
  | inl small ↦ rw (small, if◌then◌else◌) (ground arith)
  | inr large ↦
      rw (large, if◌then◌else◌)
        (append-Leads (show_fuel f (n / 10)) _
          (show_fuel-Leads f (n / 10) (omega arith) (ground arith)))
]

-- A number above 0 does not begin with 0.
pub show-Leads : (n : ℕ) → 1 ≤ n → Leads (show n)
unfolding show
show-Leads n h = show_fuel-Leads (suc n) n (omega arith) h

pub value-≥ : (n : ℕ) (s : Bytes) → n ≤ value n s
unfolding value
value-≥ n [] = omega arith
value-≥ n (c ∷ s) = omega (arith, value-≥ (n * 10 + (c - b'0')) s)
