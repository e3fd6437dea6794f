-- ===== src/Passage/Place/Landing.antt =====
-- Where a locator of internal/passage/passage.go lands: a section or a page within its book.
use flickr.Base.{
  zero, suc, ℤ, pos, negsuc, int_eq, int_beq, le_int, le_int_iff, le_int-false_iff, min_int, ◌≤ℤ◌,
  ◌<ℤ◌, ◌≡◌, refl, ◌⊎◌, inl, inr, str, bytes_eq, if◌then◌else◌, arith, Bool-cases,
}
use flickr.Base.Float.{Floats}
use flickr.Passage.Place.{Locator, section_from_cfi, proportion, clamp}

-- A place among `count`, given the number that was asked for: none where there is nothing to land on
-- or nothing was asked for, and else the nearest.
abbrev pub Lands : ℤ → ℤ → ℤ → Type 0
Lands count asked place =
    (((count ≤ℤ pos 0) ⊎ (asked ≡ pos 0)) × (place ≡ pos 0))
    ⊎ ((pos 1 ≤ℤ place)
        × (place ≤ℤ count)
        × (pos 1 ≤ℤ asked → asked ≤ℤ count → place ≡ asked)
        × (count <ℤ asked → place ≡ count)
        × (asked <ℤ pos 1 → place ≡ pos 1))

clamp-Lands :
    (fl : Floats) (count asked : ℤ) → pos 0 <ℤ count → Lands count asked (clamp fl count asked)
unfolding clamp min_int le_int int_beq ◌≤ℤ◌ ◌<ℤ◌
clamp-Lands fl (negsuc c) asked h = absurd (omega arith)
clamp-Lands fl (pos c) (negsuc n) h = inr (
  ground arith,
  ground arith,
  λ a b. absurd (omega arith),
  λ a. absurd (omega arith),
  λ a. ground arith,
)
clamp-Lands fl (pos c) (pos zero) h = inl (inr refl, refl)
clamp-Lands fl (pos c) (pos (suc n)) h =
    inr (
      ground arith,
      ground arith,
      λ a b. ground arith,
      λ a. ground arith,
      λ a. absurd (omega arith),
    )

counted :
    (fl : Floats) (count asked : ℤ)
    → Lands count asked (if le_int count (pos 0) then pos 0 else clamp fl count asked)
counted fl count asked = elim (Bool-cases (le_int count (pos 0))) [
  | inl none_there ↦
      rw (none_there, if◌then◌else◌) (inl (inl ((le_int_iff count (pos 0)).0 none_there), refl))
  | inr some_there ↦
      rw (some_there, if◌then◌else◌)
        (clamp-Lands fl count asked ((le_int-false_iff count (pos 0)).0 some_there))
]

module _ (fl : Floats) where
  open fl use {Float}

  -- The section that a locator asks for, of so many: a page asks for none.
  abbrev pub AsksSection : Locator Float → ℤ → ℤ → Type 0
  AsksSection l sections n =
      (l.kind ≡ str "ch" → n ≡ l.n)
      × (l.kind ≡ str "pct" → n ≡ proportion fl l.f sections)
      × (l.kind ≡ str "cfi" → n ≡ pos (section_from_cfi l.cfi))
      × (l.kind ≡ str "pg" → n ≡ pos 0)

  -- The page that a locator asks for, of so many: a section and a CFI ask for none.
  abbrev pub AsksPage : Locator Float → ℤ → ℤ → Type 0
  AsksPage l pages n =
      (l.kind ≡ str "pg" → n ≡ l.n)
      × (l.kind ≡ str "pct" → n ≡ proportion fl l.f pages)
      × (l.kind ≡ str "cfi" → n ≡ pos 0)
      × (l.kind ≡ str "ch" → n ≡ pos 0)
