-- ===== src/Passage/Numbers.antt =====
-- The numbers of internal/passage/passage.go: seconds, item ids, and the digits that strconv reads
-- into an int.
use flickr.Base.{
  ℕ, ℤ, pos, ◌-◌, ◌^◌, ◌≤◌, Bool, true, false, ◌&&◌, Option, none, some, [], ◌∷◌, ◌≡◌, refl, ◌≢◌,
  Bytes, is_digit, IsDigit, All, ltb, ◌==◌, nat_eq, if◌then◌else◌, value, show, value-show,
  show-digits, arith, show-ne-nil, ◌>>=◌, Bool-cases, inl, inr,
}
use flickr.Base.Float.{Floats}

abbrev pub max_int64 : ℕ
max_int64 = 2 ^ 63 - 1

unfoldable pub all_digits : Bytes → Bool
all_digits [] = true
all_digits (c ∷ s) = is_digit c && all_digits s

-- ^\d+$
unfoldable pub is_item_id : Bytes → Bool
unfolding all_digits
is_item_id [] = false
is_item_id (c ∷ s) = all_digits (c ∷ s)

-- ParseInt fails beyond int64.
unfoldable pub parse_item_id : Bytes → Option ℤ
unfolding is_item_id
parse_item_id v =
    if is_item_id v
    then (if ltb max_int64 (value 0 v) then none else some (pos (value 0 v)))
    else none

-- Where the match of ^\d+(\.\d+)?$ stands.
pub data SecondsState : Type 0 where
  start whole point fraction : SecondsState

unfoldable pub matches_seconds : SecondsState → Bytes → Bool
matches_seconds start [] = false
matches_seconds whole [] = true
matches_seconds point [] = false
matches_seconds fraction [] = true
matches_seconds start (c ∷ s) = is_digit c && matches_seconds whole s
matches_seconds whole (c ∷ s) = elim (c == b'.') [
  | true ↦ matches_seconds point s
  | false ↦ is_digit c && matches_seconds whole s
]
matches_seconds point (c ∷ s) = is_digit c && matches_seconds fraction s
matches_seconds fraction (c ∷ s) = is_digit c && matches_seconds fraction s

module _ (fl : Floats) where
  open fl use {Float, is_finite, parse}

  unfoldable pub parse_seconds : Bytes → Option Float
  parse_seconds v =
      if matches_seconds start v
      then (parse v >>= λ n. if is_finite n then some n else none)
      else none

pub all_digits-All : (s : Bytes) → All IsDigit s → all_digits s ≡ true
unfolding all_digits
all_digits-All [] h = refl
all_digits-All (c ∷ s) (d, h) = ground (arith, all_digits-All s h)

pub is_item_id-digits : (s : Bytes) → s ≢ [] → All IsDigit s → is_item_id s ≡ true
unfolding is_item_id
is_item_id-digits [] ne h = absurd (ne refl)
is_item_id-digits (c ∷ s) ne h = all_digits-All (c ∷ s) h

-- An id that fits reads back from its decimal notation.
pub parse_item_id-show : (n : ℕ) → n ≤ max_int64 → parse_item_id (show n) ≡ some (pos n)
unfolding parse_item_id
parse_item_id-show n h =
    rw (is_item_id-digits (show n) (show-ne-nil n) (show-digits n), value-show n, if◌then◌else◌)
      (ground arith)

-- A text of seconds is digits and at most a point.
abbrev pub IsSecondsByte : ℕ → Type 0
IsSecondsByte c = (b'.' ≤ c) × (c ≤ b'9')

pub matches_seconds-bytes :
    (q : SecondsState) (s : Bytes) → matches_seconds q s ≡ true → All IsSecondsByte s
unfolding matches_seconds
matches_seconds-bytes start [] h = tt
matches_seconds-bytes start (c ∷ s) h = (ground arith, matches_seconds-bytes whole s (ground arith))
matches_seconds-bytes whole [] h = tt
matches_seconds-bytes whole (c ∷ s) h = elim (Bool-cases (c == b'.')) [
  | inl dot ↦ (ground arith, matches_seconds-bytes point s (ground arith))
  | inr digit ↦ (ground arith, matches_seconds-bytes whole s (ground arith))
]
matches_seconds-bytes point [] h = tt
matches_seconds-bytes point (c ∷ s) h =
    (ground arith, matches_seconds-bytes fraction s (ground arith))
matches_seconds-bytes fraction [] h = tt
matches_seconds-bytes fraction (c ∷ s) h =
    (ground arith, matches_seconds-bytes fraction s (ground arith))

module _ (fl : Floats) where
  open fl use {Float}

  pub parse_seconds-bytes :
      (s : Bytes) (v : Float) → parse_seconds fl s ≡ some v → All IsSecondsByte s
  unfolding parse_seconds
  parse_seconds-bytes s v h = matches_seconds-bytes start s (ground arith)

all_digits-IsDigit : (s : Bytes) → all_digits s ≡ true → All IsDigit s
unfolding all_digits
all_digits-IsDigit [] h = tt
all_digits-IsDigit (c ∷ s) h = (ground arith, all_digits-IsDigit s (ground arith))

-- An item id is digits, and at least one.
pub is_item_id-IsDigit : (s : Bytes) → is_item_id s ≡ true → (s ≢ []) × All IsDigit s
unfolding is_item_id
is_item_id-IsDigit [] h = cc
is_item_id-IsDigit (c ∷ s) h = (λ e. cc, all_digits-IsDigit (c ∷ s) h)
