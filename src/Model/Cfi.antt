-- ===== src/Model/Cfi.antt =====
-- SectionFromCFI of internal/model/model.go: the spine section that an EPUB CFI points into.
use flickr.Base.{
  ℕ, ◌+◌, ◌-◌, ◌*◌, ◌/◌, ◌%◌, ◌^◌, ◌||◌, not, Option, none, some, [], ◌∷◌, Bytes, str, cut_prefix,
  cut_byte, ltb, ◌==◌, nat_eq, is_digit, if◌then◌else◌,
}
use flickr.Base.Trim.{trim_space}

-- The loop over the digits; none is the early `return 0` on a number above 1<<20.
unfoldable pub spine_digits : ℕ → Bytes → Option ℕ
spine_digits n [] = some n
spine_digits n (c ∷ s) =
    let m = n * 10 + (c - b'0') in
    let rest = spine_digits m s in
    if not (is_digit c) then some n else if ltb (2 ^ 20) m then none else rest

-- An itemref is an even child, and the first one is child 2.
unfoldable pub even_step : ℕ → ℕ
even_step n = if ltb n 2 || not (n % 2 == 0) then 0 else n / 2

unfoldable pub spine_step : Option (Bytes × Bytes) → ℕ
unfolding spine_digits even_step
spine_step none = 0
spine_step (some (first, behind)) = elim (spine_digits 0 behind) [ none ↦ 0 | some n ↦ even_step n ]

unfoldable pub in_package : Option Bytes → ℕ
unfolding spine_step
in_package none = 0
in_package (some s) = spine_step (cut_byte b'/' s)

unfoldable pub section_from_cfi : Bytes → ℕ
unfolding in_package
section_from_cfi cfi = in_package (cut_prefix (trim_space cfi) (str "epubcfi(/"))
