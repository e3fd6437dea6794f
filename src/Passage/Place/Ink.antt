-- ===== src/Passage/Place/Ink.antt =====
-- The texts of the spellings in internal/passage/passage.go: they end in ink, so that no space is
-- trimmed off, and digits make a count.
use flickr.Base.{
  cut_prefix-some, ℕ, ◌-◌, ◌≤◌, ℤ, pos, negsuc, Bool, true, false, ◌&&◌, ◌||◌, [], ◌∷◌, ◌++◌, ◌≡◌,
  refl, ◌≢◌, ◌⊎◌, inl, inr, ap, ◌∙◌, sym, subst, Bytes, str, bytes_eq, ◌==◌, nat_eq, is_digit,
  IsDigit, All, All-map, is_empty, show, show-digits, show-ne-nil, Leads, value, value-show,
  value-≥, cut_prefix, arith, Option-cases,
}
use mathlib.Core.List.{append_assoc}
use flickr.Base.Trim.{trim_space}
use flickr.Base.Trim.Framed.{IsInk, trim_space-IsInk}
use flickr.Passage.Numbers.{max_int64, all_digits-All}
use flickr.Passage.Place.{ends_group, is_cfi, is_count, atoi, is_decimals, all_of, is_fraction}

-- A text that ends in ink.
abbrev pub Closed : Bytes → Type 0
Closed s = (before : Bytes) × (last : ℕ) × (s ≡ before ++ last ∷ []) × IsInk last

ink-Closed : (s : Bytes) → s ≢ [] → All IsInk s → Closed s
ink-Closed [] named h = absurd (named refl)
ink-Closed (c ∷ []) named (h, _) = ([], c, refl, h)
ink-Closed (c ∷ d ∷ s) named (_, h) =
    let (before, last, split, ink) = ink-Closed (d ∷ s) (λ e. cc) h in
    (c ∷ before, last, ap (λ r. c ∷ r) split, ink)

ends_group-Closed : (s : Bytes) → ends_group s ≡ true → Closed s
unfolding ends_group
ends_group-Closed [] h = cc
ends_group-Closed (c ∷ []) h = ([], c, refl, ground arith)
ends_group-Closed (c ∷ d ∷ s) h =
    let (before, last, split, ink) = ends_group-Closed (d ∷ s) (ground arith) in
    (c ∷ before, last, ap (λ r. c ∷ r) split, ink)

pub trim_space-Closed :
    (c : ℕ) (mid s : Bytes) → IsInk c → Closed s → trim_space (c ∷ (mid ++ s)) ≡ c ∷ (mid ++ s)
trim_space-Closed c mid s ink (before, last, split, ink_last) =
    let shape : c ∷ (mid ++ s) ≡ c ∷ ((mid ++ before) ++ last ∷ []) =
      ap (λ r. c ∷ r) (ap (λ r. mid ++ r) split ∙ sym (append_assoc mid before (last ∷ []))) in
    rw shape (trim_space-IsInk c (mid ++ before) last ink ink_last)

pub is_count-Leads : (s : Bytes) → Leads s → All IsDigit s → is_count s ≡ true
unfolding is_count
is_count-Leads [] h d = absurd h
is_count-Leads (c ∷ s) h (d, ds) = ground (arith, all_digits-All s ds)

-- A count from 1 to the largest int.
abbrev pub IsCount : ℤ → Type 0
IsCount (pos n) = (1 ≤ n) × (n ≤ max_int64)
IsCount (negsuc n) = ⊥

pub is_count-IsCount : (s : Bytes) → is_count s ≡ true → IsCount (pos (atoi s))
unfolding is_count atoi value
is_count-IsCount [] h = cc
is_count-IsCount (c ∷ s) h = ground (arith, value-≥ (c - b'0') s)

pub atoi-show : (n : ℕ) → n ≤ max_int64 → atoi (show n) ≡ n
unfolding atoi
atoi-show n h = rw (value-show n) (ground arith)

all_of-IsInk :
    (digit : ℕ → Bool)
    → ((c : ℕ) → digit c ≡ true → IsInk c)
    → (s : Bytes) → all_of digit s ≡ true
    → All IsInk s
unfolding all_of
all_of-IsInk digit ink [] h = tt
all_of-IsInk digit ink (c ∷ s) h = (ink c (ground arith), all_of-IsInk digit ink s (ground arith))

is_decimals-IsInk :
    (digit : ℕ → Bool)
    → ((c : ℕ) → digit c ≡ true → IsInk c)
    → (s : Bytes) → is_decimals digit s ≡ true
    → All IsInk s
unfolding is_decimals
is_decimals-IsInk digit ink [] h = tt
is_decimals-IsInk digit ink (c ∷ []) h = cc
is_decimals-IsInk digit ink (c ∷ d ∷ s) h =
    (ground arith, (ink d (ground arith), all_of-IsInk digit ink s (ground arith)))

tail_IsInk :
    (digit : ℕ → Bool)
    → ((c : ℕ) → digit c ≡ true → IsInk c)
    → (s : Bytes) → (is_empty s || is_decimals digit s) ≡ true
    → All IsInk s
tail_IsInk digit ink [] h = tt
tail_IsInk digit ink (c ∷ s) h = is_decimals-IsInk digit ink (c ∷ s) h

pub or_cases : (a b : Bool) → (a || b) ≡ true → (a ≡ true) ⊎ (b ≡ true)
or_cases true b h = inl refl
or_cases false b h = inr h

and_right : (a b : Bool) → (a && b) ≡ true → b ≡ true
and_right true b h = h
and_right false b h = cc

headed : (c b : ℕ) (rest : Bool) → IsInk b → (c == b && rest) ≡ true → IsInk c
headed c b rest ink h = ground arith

is_fraction-IsInk : (s : Bytes) → is_fraction s ≡ true → All IsInk s
unfolding is_fraction
is_fraction-IsInk [] h = tt
is_fraction-IsInk (c ∷ s) h =
    let digit : (c : ℕ) → is_digit c ≡ true → IsInk c = λ c h. ground arith in
    let nought : (c : ℕ) → (c == b'0') ≡ true → IsInk c = λ c h. ground arith in
    let below = is_empty s || is_decimals (λ d. is_digit d) s in
    let above = is_empty s || is_decimals (λ d. d == b'0') s in
    let bare = is_decimals (λ d. is_digit d) (c ∷ s) in
    elim (or_cases ((c == b'0' && below) || (c == b'1' && above)) bare h) [
      | inl h ↦ elim (or_cases (c == b'0' && below) (c == b'1' && above) h) [
        | inl low ↦ (
          headed c b'0' below (omega arith) low,
          tail_IsInk _ digit s (and_right (c == b'0') below low),
        )
        | inr high ↦ (
          headed c b'1' above (omega arith) high,
          tail_IsInk _ nought s (and_right (c == b'1') above high),
        )
      ]
      | inr short ↦ is_decimals-IsInk _ digit (c ∷ s) short
    ]

is_fraction-ne-nil : (s : Bytes) → is_fraction s ≡ true → s ≢ []
unfolding is_fraction
is_fraction-ne-nil [] h e = cc
is_fraction-ne-nil (c ∷ s) h e = cc

pub is_fraction-Closed : (s : Bytes) → is_fraction s ≡ true → Closed s
is_fraction-Closed s h = ink-Closed s (is_fraction-ne-nil s h) (is_fraction-IsInk s h)

pub append-Closed : (p s : Bytes) → Closed s → Closed (p ++ s)
append-Closed p s (before, last, split, ink) =
    (p ++ before, last, ap (λ r. p ++ r) split ∙ sym (append_assoc p before (last ∷ [])), ink)

pub is_cfi-Closed : (s : Bytes) → is_cfi s ≡ true → Closed s
unfolding is_cfi
is_cfi-Closed s h = elim (Option-cases (cut_prefix s (str "epubcfi("))) [
  | inl other ↦ absurd (ground arith)
  | inr (rest, starts) ↦
      let closed : ends_group rest ≡ true = ground arith in
      subst Closed (sym (cut_prefix-some s _ rest starts))
        (append-Closed (str "epubcfi(") rest (ends_group-Closed rest closed))
]

pub show-Closed : (n : ℕ) → Closed (show n)
show-Closed n =
    ink-Closed (show n) (show-ne-nil n)
      (All-map IsDigit IsInk (show n) (λ c d. omega arith) (show-digits n))
