-- ===== src/Passage/Place.antt =====
-- The text locators of internal/passage/passage.go: a place in a book in one of four spellings, and
-- the section or the page that it lands on.
mod Ink
pub mod Spelling
pub mod Canonical
pub mod Landing
pub mod Mirror
mod Tests
use flickr.Base.{
  ℕ, ◌+◌, ◌/◌, ◌%◌, ◌-◌, ℤ, pos, negsuc, int_eq, le_int, lt_int, min_int, Bool, true, false, not,
  ◌&&◌, ◌||◌, Option, none, some, List, [], ◌∷◌, ◌++◌, Bytes, str, bytes_eq, ◌==◌, nat_eq,
  if◌then◌else◌, ◌>>=◌, is_digit, is_empty, show_int, value, leb, ltb, length, cut_prefix, cut_byte,
}
use flickr.Base.Trim.{trim_space}
use flickr.Base.Float.{Floats}
use flickr.Passage.Numbers.{max_int64, all_digits}
use flickr.Passage.Episode.{skip_blank, take_digits}

-- One place in a book; the kind is "cfi", "ch", "pct" or "pg".
pub record Locator (F : Type 0) : Type 0 where
  pub kind : Bytes
  pub cfi : Bytes
  pub n : ℤ
  pub f : F

-- A text without a line feed that a closing parenthesis ends.
unfoldable pub ends_group : Bytes → Bool
ends_group [] = false
ends_group (c ∷ []) = c == b')'
ends_group (c ∷ d ∷ s) = not (c == 10) && ends_group (d ∷ s)

-- ^epubcfi\(.*\)$
unfoldable pub is_cfi : Bytes → Bool
is_cfi s = elim (cut_prefix s (str "epubcfi(")) [ none ↦ false | some rest ↦ ends_group rest ]

-- ^[1-9]\d*$
unfoldable pub is_count : Bytes → Bool
is_count [] = false
is_count (c ∷ s) = is_digit c && not (c == b'0') && all_digits s

-- Atoi of digits: its value at an overflow is the largest int.
unfoldable pub atoi : Bytes → ℕ
atoi s = if ltb max_int64 (value 0 s) then max_int64 else value 0 s

unfoldable pub all_of : (ℕ → Bool) → Bytes → Bool
all_of digit [] = true
all_of digit (c ∷ s) = digit c && all_of digit s

-- \.\d+$
unfoldable pub is_decimals : (ℕ → Bool) → Bytes → Bool
is_decimals digit [] = false
is_decimals digit (c ∷ []) = false
is_decimals digit (c ∷ d ∷ s) = c == b'.' && digit d && all_of digit s

-- ^(0(\.\d+)?|1(\.0+)?|\.\d+)$
unfoldable pub is_fraction : Bytes → Bool
is_fraction [] = false
is_fraction (c ∷ s) =
    (c == b'0' && (is_empty s || is_decimals (λ d. is_digit d) s))
    || (c == b'1' && (is_empty s || is_decimals (λ d. d == b'0') s))
    || is_decimals (λ d. is_digit d) (c ∷ s)

-- strings.ToLower, as far as it can give one of the kinds.
unfoldable pub to_lower : Bytes → Bytes
to_lower [] = []
to_lower (c ∷ []) = (if leb b'A' c && leb c b'Z' then c + 32 else c) ∷ []
to_lower (c ∷ d ∷ s) =
    let rest = to_lower (d ∷ s) in
    let behind = to_lower s in
    if leb b'A' c && leb c b'Z'
    then (c + 32) ∷ rest
    else if c == 0xc4 && d == 0xb0
    then b'i' ∷ behind
    else c ∷ rest

-- \d+ and what stands behind it
unfoldable pub digits_run : Bytes → Bytes × Bytes
digits_run s = take_digits (length s) s

-- The itemref is an even child index.
unfoldable pub itemref : Bytes → ℕ
itemref ds =
    if is_empty ds || ltb max_int64 (value 0 ds)
    then 0
    else if ltb (value 0 ds) 2 || not (value 0 ds % 2 == 0)
    then 0
    else value 0 ds / 2

-- \d+/(\d+)
unfoldable pub spine_step : Bytes → ℕ
spine_step s =
    let (first, behind) = digits_run s in
    if is_empty first
    then 0
    else elim (cut_prefix behind (str "/")) [ none ↦ 0 | some step ↦ itemref (digits_run step).0 ]

-- ^\s*epubcfi\(/\d+/(\d+)
unfoldable pub section_from_cfi : Bytes → ℕ
section_from_cfi cfi = elim (cut_prefix (skip_blank cfi) (str "epubcfi(/")) [
  | none ↦ 0
  | some s ↦ spine_step s
]

module _ (fl : Floats) where
  open fl use {Float, lit, of_int, mul, floor, to_int, parse, format}

  unfoldable pub zero_float : Float
  zero_float = lit 0 1

  unfoldable pub by_cfi : Bytes → Locator Float
  by_cfi v = record { kind = str "cfi"; cfi = v; n = pos 0; f = zero_float }

  unfoldable pub by_count : Bytes → Bytes → Locator Float
  by_count kind v = record { kind = kind; cfi = []; n = pos (atoi v); f = zero_float }

  unfoldable pub by_fraction : Bytes → Locator Float
  by_fraction v = record {
    kind = str "pct";
    cfi = [];
    n = pos 0;
    f = elim (parse v) [ none ↦ zero_float | some f ↦ f ];
  }

  -- The switch over the kind.
  unfoldable pub parse_kind : Bytes → Bytes → Option (Locator Float)
  parse_kind kind rest =
      if kind == str "cfi"
      then (if is_cfi rest then some (by_cfi rest) else none)
      else if kind == str "ch" || kind == str "pg"
      then (if is_count rest then some (by_count kind rest) else none)
      else if kind == str "pct"
      then (if is_fraction rest then some (by_fraction rest) else none)
      else none

  unfoldable pub parse_locator : Bytes → Option (Locator Float)
  unfolding zero_float by_cfi by_count by_fraction parse_kind
  parse_locator s =
      let v = trim_space s in
      if is_empty v then none else if is_cfi v then some (by_cfi v) else elim (cut_byte b':' v) [
        | none ↦ none
        | some (kind, rest) ↦ parse_kind (to_lower kind) rest
      ]

  -- "" for nil or a kind that is none of the four.
  unfoldable pub string : Option (Locator Float) → Bytes
  string none = []
  string (some l) =
      if l.kind == str "cfi"
      then str "cfi:" ++ l.cfi
      else if l.kind == str "ch"
      then str "ch:" ++ show_int l.n
      else if l.kind == str "pct"
      then str "pct:" ++ format l.f
      else if l.kind == str "pg"
      then str "pg:" ++ show_int l.n
      else []

  add_one : ℤ → ℤ
  add_one (pos n) = pos (n + 1)
  add_one (negsuc ℕ.zero) = pos 0
  add_one (negsuc (ℕ.suc n)) = negsuc n

  -- The share of `count` that a fraction is: 1 lands behind the last.
  unfoldable pub proportion : Float → ℤ → ℤ
  unfolding add_one
  proportion f count = add_one (to_int (floor (mul f (of_int count))))

  unfoldable pub section_number : Locator Float → ℤ → ℤ
  section_number l sections =
      if l.kind == str "ch"
      then l.n
      else if l.kind == str "pct"
      then proportion l.f sections
      else if l.kind == str "cfi"
      then pos (section_from_cfi l.cfi)
      else pos 0

  unfoldable pub page_number : Locator Float → ℤ → ℤ
  page_number l pages =
      if l.kind == str "pg"
      then l.n
      else if l.kind == str "pct"
      then proportion l.f pages
      else pos 0

  -- if n == 0 { return 0 }; return min(count, max(1, n))
  unfoldable pub clamp : ℤ → ℤ → ℤ
  clamp count n =
      if n == pos 0 then pos 0 else min_int count (if le_int n (pos 1) then pos 1 else n)

  unfoldable pub section : Option (Locator Float) → ℤ → ℤ
  unfolding section_number clamp
  section none sections = pos 0
  section (some l) sections =
      if le_int sections (pos 0) then pos 0 else clamp sections (section_number l sections)

  unfoldable pub page : Option (Locator Float) → ℤ → ℤ
  unfolding page_number clamp
  page none pages = pos 0
  page (some l) pages = if le_int pages (pos 0) then pos 0 else clamp pages (page_number l pages)
