-- ===== src/Works/Place/Clock.antt =====
-- The clock of internal/works/progress.go reads back.
use flickr.Base.{
  ℕ, ◌+◌, ◌*◌, ◌/◌, ◌%◌, true, [], ◌∷◌, ◌++◌, ◌≡◌, refl, ◌∙◌, ap, Bytes, nat_eq, ◌==◌, ltb,
  if◌then◌else◌, show, show_02, value, value-show, IsDigit, show-digits, All, arith, if_split,
}
use flickr.Base.Float.{Floats}
use flickr.Works.Place.{spell_clock, clock, whole_seconds}

-- Numbers between colons, each sixty of the next: `t` units so far, and the number under way.
unfoldable pub read_sixties : ℕ → ℕ → Bytes → ℕ
read_sixties t n [] = t + n
read_sixties t n (c ∷ s) =
    let colon = read_sixties ((t + n) * 60) 0 s in
    let digit = read_sixties t (value n (c ∷ [])) s in if c == b':' then colon else digit

no_colon : (d : ℕ) → IsDigit d → (d == b':') ≡ true → ⊥
no_colon d h colon = ground arith

read_sixties-digits :
    (t : ℕ) (ds s : Bytes) (n : ℕ)
    → All IsDigit ds
    → read_sixties t n (ds ++ s) ≡ read_sixties t (value n ds) s
unfolding read_sixties value
read_sixties-digits t [] s n h = refl
read_sixties-digits t (d ∷ ds) s n (hd, h) =
    if_split (λ r. r ≡ read_sixties t (value n (d ∷ ds)) s) (d == b':') _ _
      (λ colon. absurd (no_colon d hd colon)) (λ digit. read_sixties-digits t ds s _ h)

read_sixties-end :
    (t : ℕ) (ds : Bytes) (n : ℕ) → All IsDigit ds → read_sixties t n ds ≡ t + value n ds
unfolding read_sixties value
read_sixties-end t [] n h = refl
read_sixties-end t (d ∷ ds) n (hd, h) =
    if_split (λ r. r ≡ t + value n (d ∷ ds)) (d == b':') _ _ (λ colon. absurd (no_colon d hd colon))
      (λ digit. read_sixties-end t ds _ h)

show_02-digits : (n : ℕ) → All IsDigit (show_02 n)
unfolding show_02
show_02-digits n =
    if_split (All IsDigit) (ltb n 10) _ _ (λ h. (omega arith, show-digits n)) (λ h. show-digits n)

value-show_02 : (n : ℕ) → value 0 (show_02 n) ≡ n
unfolding show_02 value
value-show_02 n =
    if_split (λ s. value 0 s ≡ n) (ltb n 10) _ _ (λ h. value-show n) (λ h. value-show n)

-- A number in front of a colon, and one at the end.
read_sixties-show :
    (t n : ℕ) (s : Bytes) → read_sixties t 0 (show n ++ b':' ∷ s) ≡ read_sixties ((t + n) * 60) 0 s
unfolding read_sixties
read_sixties-show t n s =
    read_sixties-digits t (show n) (b':' ∷ s) 0 (show-digits n)
    ∙ ap (λ v. read_sixties ((t + v) * 60) 0 s) (value-show n)

read_sixties-show_02 :
    (t n : ℕ) (s : Bytes)
    → read_sixties t 0 (show_02 n ++ b':' ∷ s) ≡ read_sixties ((t + n) * 60) 0 s
unfolding read_sixties
read_sixties-show_02 t n s =
    read_sixties-digits t (show_02 n) (b':' ∷ s) 0 (show_02-digits n)
    ∙ ap (λ v. read_sixties ((t + v) * 60) 0 s) (value-show_02 n)

read_sixties-last : (t n : ℕ) → read_sixties t 0 (show_02 n) ≡ t + n
read_sixties-last t n =
    read_sixties-end t (show_02 n) 0 (show_02-digits n) ∙ ap (λ v. t + v) (value-show_02 n)

read_spell_clock : (s : ℕ) → read_sixties 0 0 (spell_clock s) ≡ s
unfolding spell_clock
read_spell_clock s =
    if_split (λ text. read_sixties 0 0 text ≡ s) (s / 3600 == 0) _ _
      (λ short. omega (
        arith,
        (nat_eq.equals_iff (s / 3600) 0).0 short,
        read_sixties-show 0 (s % 3600 / 60) (show_02 (s % 60)),
        read_sixties-last ((0 + s % 3600 / 60) * 60) (s % 60),
      ))
      (λ long. omega (
        arith,
        read_sixties-show 0 (s / 3600) (show_02 (s % 3600 / 60) ++ b':' ∷ show_02 (s % 60)),
        read_sixties-show_02 ((0 + s / 3600) * 60) (s % 3600 / 60) (show_02 (s % 60)),
        read_sixties-last (((0 + s / 3600) * 60 + s % 3600 / 60) * 60) (s % 60),
      ))

-- A clock, read as minutes and seconds or as hours, minutes and seconds, gives the whole seconds it was made of, and 0 for a time before the start.
pub read-clock :
    (fl : Floats) (sec : fl.Float) → read_sixties 0 0 (clock fl sec) ≡ whole_seconds (fl.to_int sec)
unfolding clock
read-clock fl sec = read_spell_clock (whole_seconds (fl.to_int sec))
