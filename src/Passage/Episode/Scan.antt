-- ===== src/Passage/Episode/Scan.antt =====
-- The parts of an episode code, each read and matched on its own.
use flickr.Base.{
  guard_then, ℕ, zero, suc, Bool, true, false, none, some, [], ◌∷◌, ◌++◌, ◌≡◌, refl, ◌≢◌, ◌≤◌, ◌⊎◌,
  inl, inr, length, ◌∙◌, ap, Bytes, nat_eq, if◌then◌else◌, is_digit, IsDigit, All, is_empty, arith,
  Bool-cases, some_inj, subst,
}
use flickr.Passage.Episode.{is_blank, skip_blank, take_digits, after_letter, some_digits, at_end}

abbrev pub IsBlank : ℕ → Type 0
IsBlank c = is_blank c ≡ true

skip_blank-append : (pre s : Bytes) → All IsBlank pre → skip_blank (pre ++ s) ≡ skip_blank s
unfolding skip_blank
skip_blank-append [] s h = refl
skip_blank-append (c ∷ pre) s (b, h) = ground (arith, skip_blank-append pre s h)

pub skip_blank-split : (s : Bytes) → (pre : Bytes) × All IsBlank pre × (s ≡ pre ++ skip_blank s)
unfolding skip_blank
skip_blank-split [] = ([], tt, refl)
skip_blank-split (c ∷ s) =
    let (pre, h, e) = skip_blank-split s in
    elim (Bool-cases (is_blank c)) [
      | inl b ↦ (c ∷ pre, (b, h), rw (b, if◌then◌else◌) (ap (λ r. c ∷ r) e))
      | inr b ↦ ([], tt, rw (b, if◌then◌else◌) refl)
    ]

-- No digit stands at the start.
abbrev pub Stops : Bytes → Type 0
Stops [] = Unit
Stops (c ∷ s) = is_digit c ≡ false

take_digits-Stops : (n : ℕ) (s : Bytes) → Stops s → take_digits n s ≡ ([], s)
unfolding take_digits
take_digits-Stops zero s h = refl
take_digits-Stops (suc n) [] h = refl
take_digits-Stops (suc n) (c ∷ s) h = ground arith

-- Digits that fit are taken up to the first byte that is none.
pub take_digits-append :
    (n : ℕ) (ds s : Bytes)
    → All IsDigit ds
    → length ds ≤ n
    → Stops s
    → take_digits n (ds ++ s) ≡ (ds, s)
unfolding take_digits
take_digits-append n [] s h le stops = take_digits-Stops n s stops
take_digits-append zero (d ∷ ds) s h le stops = absurd (omega arith)
take_digits-append (suc n) (d ∷ ds) s (hd, h) le stops =
    ground (arith, take_digits-append n ds s h (omega arith) stops)

take_digits-split :
    (n : ℕ) (s : Bytes)
    → let (ds, rest) = take_digits n s in All IsDigit ds × (length ds ≤ n) × (s ≡ ds ++ rest)
unfolding take_digits
take_digits-split zero s = (tt, omega arith, refl)
take_digits-split (suc n) [] = (tt, omega arith, refl)
take_digits-split (suc n) (c ∷ s) =
    let (h, le, e) = take_digits-split n s in
    elim (Bool-cases (is_digit c)) [
      | inl d ↦ rw (d, if◌then◌else◌) ((ground arith, h), omega arith, ap (λ r. c ∷ r) e)
      | inr d ↦ rw (d, if◌then◌else◌) (tt, omega arith, refl)
    ]

pub some_digits-append :
    (n : ℕ) (ds s : Bytes)
    → All IsDigit ds
    → (ds ≢ []) × (length ds ≤ n)
    → Stops s
    → some_digits n (ds ++ s) ≡ some (ds, s)
unfolding some_digits
some_digits-append n [] s h (named, le) stops = absurd (named refl)
some_digits-append n (d ∷ ds) s h (named, le) stops =
    rw (take_digits-append n (d ∷ ds) s h le stops, some_digits) refl

pub after_letter-either :
    (lower upper c : ℕ) (s : Bytes)
    → (c ≡ lower) ⊎ (c ≡ upper)
    → after_letter lower upper (c ∷ s) ≡ some s
unfolding after_letter
after_letter-either lower upper c s h = ground arith

pub at_end-blank : (s : Bytes) → All IsBlank s → at_end s ≡ true
unfolding at_end skip_blank
at_end-blank [] h = refl
at_end-blank (c ∷ s) (b, h) = ground (arith, at_end-blank s h)

pub blank-Stops : (s : Bytes) → All IsBlank s → Stops s
blank-Stops [] h = tt
blank-Stops (c ∷ s) (b, h) = ground arith

pub after_blanks :
    (pre : Bytes) (c : ℕ) (s : Bytes)
    → All IsBlank pre
    → is_blank c ≡ false
    → skip_blank (pre ++ c ∷ s) ≡ c ∷ s
unfolding skip_blank
after_blanks pre c s h b = skip_blank-append pre (c ∷ s) h ∙ ground arith

pub no_blank : (c : ℕ) → (c ≡ b's') ⊎ (c ≡ b'S') → is_blank c ≡ false
no_blank c h = ground arith

pub letter-Stops : (c : ℕ) (s : Bytes) → (c ≡ b'e') ⊎ (c ≡ b'E') → Stops (c ∷ s)
letter-Stops c s h = ground arith

guard_else :
    {A : Type 0} (b : Bool) (x a : A)
    → (if b then none else some x) ≡ some a
    → (b ≡ false) × (x ≡ a)
guard_else true x a h = cc
guard_else false x a h = (refl, some_inj h)

pub after_letter-some :
    (lower upper : ℕ) (s rest : Bytes)
    → after_letter lower upper s ≡ some rest
    → (c : ℕ) × ((c ≡ lower) ⊎ (c ≡ upper)) × (s ≡ c ∷ rest)
unfolding after_letter
after_letter-some lower upper [] rest h = cc
after_letter-some lower upper (c ∷ s) rest h =
    let (either, same) = guard_then _ s rest h in (c, ground arith, ap (λ r. c ∷ r) same)

not_empty : (ds : Bytes) → ds ≡ [] → is_empty ds ≡ false → ⊥
not_empty [] e h = cc
not_empty (d ∷ ds) e h = cc

pub some_digits-some :
    (n : ℕ) (s ds rest : Bytes)
    → some_digits n s ≡ some (ds, rest)
    → All IsDigit ds × ((ds ≢ []) × (length ds ≤ n)) × (s ≡ ds ++ rest)
unfolding some_digits
some_digits-some n s ds rest h =
    let (digits, le, spelled) = take_digits-split n s in
    let (named, same) = guard_else _ (take_digits n s) (ds, rest) h in
    let named' : ds ≢ [] = λ e. not_empty _ (ap (λ r. r.0) same ∙ e) named in
    (subst (λ r. All IsDigit r.0 × ((ds ≢ []) × (length r.0 ≤ n)) × (s ≡ r.0 ++ r.1)) same
      (digits, (named', le), spelled))

pub at_end-true : (s : Bytes) → at_end s ≡ true → All IsBlank s
unfolding at_end skip_blank
at_end-true [] h = tt
at_end-true (c ∷ s) h = elim (Bool-cases (is_blank c)) [
  | inl b ↦ (b, at_end-true s (ground arith))
  | inr b ↦ absurd (ground arith)
]
