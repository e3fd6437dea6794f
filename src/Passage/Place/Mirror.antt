-- ===== src/Passage/Place/Mirror.antt =====
-- SectionFromCFI of internal/passage/passage.go and of internal/model/model.go, side by side.
use flickr.Base.{
  ℕ, ◌≤◌, ◌^◌, ◌+◌, ◌-◌, ◌*◌, length, length-append, false, some, [], ◌∷◌, ◌++◌, ◌≡◌, refl, ◌≢◌,
  ◌∙◌, sym, Bytes, str, nat_eq, if◌then◌else◌, IsDigit, All, All-map, is_empty, value, value-≥,
  cut_prefix, cut_byte, arith,
}
use flickr.Model.Cfi.{spine_digits, even_step, in_package}
use flickr.Model.Cfi
use flickr.Passage.Values.RoundTrip.{cut_byte_first}
use flickr.Passage.Episode.{skip_blank}
use flickr.Passage.Episode.Scan.{Stops, take_digits-append}
use flickr.Passage.Place.{digits_run, itemref, spine_step, section_from_cfi}
use flickr.Passage.Place.Ink.{Closed, append-Closed, trim_space-Closed}

-- A CFI whose first two steps are written in digits, the second no more than 2^20.
pub record TwoSteps (cfi : Bytes) : Type 0 where
  pub first : Bytes
  pub second : Bytes
  pub behind : Bytes
  pub spelled : cfi ≡ str "epubcfi(/" ++ (first ++ b'/' ∷ (second ++ behind))
  pub digits : All IsDigit first × All IsDigit second
  pub named : (first ≢ []) × (second ≢ [])
  pub ends : Stops behind × Closed behind
  pub fits : value 0 second ≤ 2 ^ 20

spine_digits-append :
    (n : ℕ) (ds s : Bytes)
    → All IsDigit ds
    → Stops s
    → value n ds ≤ 2 ^ 20
    → spine_digits n (ds ++ s) ≡ some (value n ds)
unfolding spine_digits value
spine_digits-append n [] [] h stops fits = refl
spine_digits-append n [] (c ∷ s) h stops fits = ground arith
spine_digits-append n (d ∷ ds) s (hd, h) stops fits = ground (
  arith,
  spine_digits-append (n * 10 + (d - b'0')) ds s h stops fits,
  value-≥ (n * 10 + (d - b'0')) ds,
)

digits_run-append : (ds s : Bytes) → All IsDigit ds → Stops s → digits_run (ds ++ s) ≡ (ds, s)
unfolding digits_run
digits_run-append ds s h stops =
    take_digits-append (length (ds ++ s)) ds s h (omega (arith, length-append ds s)) stops

is_empty-ne : (s : Bytes) → s ≢ [] → is_empty s ≡ false
is_empty-ne [] h = absurd (h refl)
is_empty-ne (c ∷ s) h = refl

cut_steps :
    (first rest : Bytes)
    → All IsDigit first
    → cut_byte b'/' (first ++ b'/' ∷ rest) ≡ some (first, rest)
cut_steps first rest h =
    cut_byte_first b'/' first rest (All-map IsDigit _ first (λ c d. omega arith) h)

module _ (first second behind : Bytes) where
  abbrev steps : Bytes
  steps = first ++ b'/' ∷ (second ++ behind)

  steps-Closed : Closed behind → Closed steps
  steps-Closed h =
      append-Closed first (b'/' ∷ (second ++ behind)) (append-Closed (b'/' ∷ second) behind h)

  in_model :
      All IsDigit first
      → All IsDigit second
      → Stops behind
      → Closed behind
      → value 0 second ≤ 2 ^ 20
      → Cfi.section_from_cfi (str "epubcfi(/" ++ steps) ≡ even_step (value 0 second)
  unfolding Cfi.section_from_cfi Cfi.spine_step str cut_prefix in_package
  in_model digits_first digits_second stops closed fits =
      rw
        (
          trim_space-Closed b'e' (b'p' ∷ b'u' ∷ b'b' ∷ b'c' ∷ b'f' ∷ b'i' ∷ b'(' ∷ b'/' ∷ []) steps
              (omega arith) (steps-Closed closed),
          cut_steps first (second ++ behind) digits_first,
          Cfi.spine_step,
          spine_digits-append 0 second behind digits_second stops fits,
        )
        refl

  in_passage :
      All IsDigit first
      → All IsDigit second
      → Stops behind
      → first ≢ []
      → section_from_cfi (str "epubcfi(/" ++ steps) ≡ itemref second
  unfolding section_from_cfi spine_step str cut_prefix skip_blank
  in_passage digits_first digits_second stops named =
      rw
        (
          digits_run-append first (b'/' ∷ (second ++ behind)) digits_first refl,
          is_empty-ne first named,
          if◌then◌else◌,
          digits_run-append second behind digits_second stops,
        )
        refl

itemref-even_step :
    (ds : Bytes) → ds ≢ [] → value 0 ds ≤ 2 ^ 20 → itemref ds ≡ even_step (value 0 ds)
unfolding itemref even_step
itemref-even_step ds named fits = rw (is_empty-ne ds named) (ground arith)

-- On a CFI whose first two steps are digits, the second up to 2^20, the two functions give the same section.
pub section_from_cfi-TwoSteps :
    (cfi : Bytes) → TwoSteps cfi → section_from_cfi cfi ≡ Cfi.section_from_cfi cfi
section_from_cfi-TwoSteps cfi h = rw h.spelled (
    in_passage h.first h.second h.behind h.digits.0 h.digits.1 h.ends.0 h.named.0
    ∙ itemref-even_step h.second h.named.1 h.fits
    ∙ sym (in_model h.first h.second h.behind h.digits.0 h.digits.1 h.ends.0 h.ends.1 h.fits))
