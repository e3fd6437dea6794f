-- ===== src/Base/Order.antt =====
-- The orders that the program sorts by: strings and numbers, and one criterion before another.
use flickr.Base.Tests.{Comparable, ◌==◌, nat_eq, bool_eq, if◌then◌else◌, Bool-cases}
use flickr.Base.Text.{Bytes, bytes_eq}
use flickr.Base.Int.{ℤ, pos, negsuc, lt_int, le_int, int_beq, int_eq}
use flickr.Base.Sort.{bytes_lt, IsOrder}
use mathlib.Core.Path.{◌≡◌, refl, subst, sym, ◌∙◌}
use mathlib.Core.Logic.{inl, inr}
use mathlib.Core.Bool.{Bool, true, false, not, ◌&&◌, ◌||◌, true≢false}
use mathlib.Core.List.{[], ◌∷◌}
use native.Mathlib.Omega.{arith}

-- A strict order of which one of two different keys is the less.
pub record IsStrict {ℓ} {K : Type ℓ} (lt : K → K → Bool) : Type ℓ where
  pub irreflexive : (a : K) → lt a a ≡ false
  pub asym : (a b : K) → lt a b ≡ true → lt b a ≡ false
  pub negated : (a b c : K) → lt b a ≡ false → lt c b ≡ false → lt c a ≡ false
  pub total : (a b : K) → lt a b ≡ false → lt b a ≡ false → a ≡ b

bytes_lt-irreflexive : (s : Bytes) → bytes_lt s s ≡ false
unfolding bytes_lt
bytes_lt-irreflexive [] = refl
bytes_lt-irreflexive (c ∷ s) = ground (arith, bytes_lt-irreflexive s)

bytes_lt-asym : (s t : Bytes) → bytes_lt s t ≡ true → bytes_lt t s ≡ false
unfolding bytes_lt
bytes_lt-asym s [] h = cc
bytes_lt-asym [] (d ∷ t) h = refl
bytes_lt-asym (c ∷ s) (d ∷ t) h = ground (arith, bytes_lt-asym s t)

bytes_lt-negated :
    (s t u : Bytes) → bytes_lt t s ≡ false → bytes_lt u t ≡ false → bytes_lt u s ≡ false
unfolding bytes_lt
bytes_lt-negated [] t [] h k = refl
bytes_lt-negated [] [] (e ∷ u) h k = cc
bytes_lt-negated [] (d ∷ t) (e ∷ u) h k = cc
bytes_lt-negated (c ∷ s) [] u h k = cc
bytes_lt-negated (c ∷ s) (d ∷ t) [] h k = cc
bytes_lt-negated (c ∷ s) (d ∷ t) (e ∷ u) h k = ground (arith, bytes_lt-negated s t u)

bytes_lt-total : (s t : Bytes) → bytes_lt s t ≡ false → bytes_lt t s ≡ false → s ≡ t
unfolding bytes_lt
bytes_lt-total [] [] h k = refl
bytes_lt-total [] (d ∷ t) h k = cc
bytes_lt-total (c ∷ s) [] h k = cc
bytes_lt-total (c ∷ s) (d ∷ t) h k = ground (arith, bytes_lt-total s t)

pub bytes_lt-IsStrict : IsStrict bytes_lt
bytes_lt-IsStrict = record {
  irreflexive = bytes_lt-irreflexive;
  asym = bytes_lt-asym;
  negated = bytes_lt-negated;
  total = bytes_lt-total;
}

pub lt_int-IsStrict : IsStrict lt_int
unfolding lt_int le_int
lt_int-IsStrict = record {
  irreflexive = λ a. irr a;
  asym = λ a b h. asy a b h;
  negated = λ a b c h k. neg a b c h k;
  total = λ a b h k. tot a b h k;
}
  where
    irr : (a : ℤ) → lt_int a a ≡ false
    irr (pos n) = ground arith
    irr (negsuc n) = ground arith

    asy : (a b : ℤ) → lt_int a b ≡ true → lt_int b a ≡ false
    asy a b h = ground arith

    neg : (a b c : ℤ) → lt_int b a ≡ false → lt_int c b ≡ false → lt_int c a ≡ false
    neg a b c h k = ground arith

    tot : (a b : ℤ) → lt_int a b ≡ false → lt_int b a ≡ false → a ≡ b
    tot a b h k = ground arith

module _ {ℓ κ} {A : Type ℓ} {K : Type κ} ⦃e : Comparable K⦄ (key : A → K) (lt : K → K → Bool)
    (rest : A → A → Bool) where
  -- By a key, and by the rest where the keys are equal.
  abbrev pub by_key_then : A → A → Bool
  by_key_then a b = if key a == key b then rest a b else lt (key a) (key b)

  module _ (strict : IsStrict lt) (o : IsOrder rest) where
    key_not_less : (y x : A) → by_key_then y x ≡ false → lt (key y) (key x) ≡ false
    key_not_less y x h = elim (Bool-cases (key y == key x)) [
      | inl same ↦ rw ((e.equals_iff (key y) (key x)).0 same) (strict.irreflexive (key x))
      | inr other ↦ rw (other, if◌then◌else◌) at h
    ]

    -- Where the keys are equal, the rest decides.
    rest_not_less : (y x : A) → key y ≡ key x → by_key_then y x ≡ false → rest y x ≡ false
    rest_not_less y x same h = rw ((e.equals_iff (key y) (key x)).1 same, if◌then◌else◌) at h

    asym : (x y : A) → by_key_then x y ≡ true → by_key_then y x ≡ false
    asym x y h = elim (Bool-cases (key x == key y)) [
      | inl same ↦
          let back =
            (e.equals_iff (key y) (key x)).1 (sym ((e.equals_iff (key x) (key y)).0 same)) in
          rw (back, if◌then◌else◌) (o.asymmetric x y (rw (same, if◌then◌else◌) at h))
      | inr other ↦ elim (Bool-cases (key y == key x)) [
        | inl back ↦ absurd (
            true≢false (
              sym ((e.equals_iff (key x) (key y)).1 (sym ((e.equals_iff (key y) (key x)).0 back)))
              ∙ other))
        | inr other' ↦
            rw (other', if◌then◌else◌)
              (strict.asym (key x) (key y) (rw (other, if◌then◌else◌) at h))
      ]
    ]

    negated :
        (x y z : A) → by_key_then y x ≡ false → by_key_then z y ≡ false → by_key_then z x ≡ false
    negated x y z h k = elim (Bool-cases (key z == key x)) [
      | inl same ↦
          let ends = (e.equals_iff (key z) (key x)).0 same in
          let middle =
            strict.total (key y) (key x) (key_not_less y x h)
              (subst (λ k. lt k (key y) ≡ false) ends (key_not_less z y k)) in
          rw (same, if◌then◌else◌)
            (o.negated_trans x y z (rest_not_less y x middle h)
              (rest_not_less z y (ends ∙ sym middle) k))
      | inr other ↦
          rw (other, if◌then◌else◌)
            (strict.negated (key x) (key y) (key z) (key_not_less y x h) (key_not_less z y k))
    ]

    pub by_key_then-IsOrder : IsOrder by_key_then
    by_key_then-IsOrder = record { asymmetric = asym; negated_trans = negated }

module _ {ℓ} {A : Type ℓ} (less less' : A → A → Bool)
    (same : (a b : A) → less' a b ≡ less a b) where
  -- An order that is written another way.
  pub IsOrder-same : IsOrder less → IsOrder less'
  IsOrder-same o = record {
    asymmetric = λ x y h. same y x ∙ o.asymmetric x y (sym (same x y) ∙ h);
    negated_trans =
        λ x y z h k. same z x ∙ o.negated_trans x y z (sym (same y x) ∙ h) (sym (same z y) ∙ k);
  }

-- Unset numbers, the zeros, behind the rest.
abbrev pub zero_last : ℤ → ℤ → Bool
zero_last a b = if a == pos 0 || b == pos 0 then not (a == pos 0) && b == pos 0 else lt_int a b

-- false before true
abbrev pub lt_bool : Bool → Bool → Bool
lt_bool a b = not a && b

lt_bool-total : (a b : Bool) → lt_bool a b ≡ false → lt_bool b a ≡ false → a ≡ b
lt_bool-total true true h k = refl
lt_bool-total true false h k = cc
lt_bool-total false true h k = cc
lt_bool-total false false h k = refl

pub lt_bool-IsStrict : IsStrict lt_bool
lt_bool-IsStrict = record {
  irreflexive = λ a. ground arith;
  asym = λ a b h. ground arith;
  negated = λ a b c h k. ground arith;
  total = lt_bool-total;
}

pub zero_last-IsStrict : IsStrict zero_last
unfolding lt_int le_int int_beq
zero_last-IsStrict = record {
  irreflexive = λ a. irr a;
  asym = λ a b h. asy a b h;
  negated = λ a b c h k. neg a b c h k;
  total = λ a b h k. tot a b h k;
}
  where
    irr : (a : ℤ) → zero_last a a ≡ false
    irr (pos n) = ground arith
    irr (negsuc n) = ground arith

    asy : (a b : ℤ) → zero_last a b ≡ true → zero_last b a ≡ false
    asy (pos a) (pos b) h = ground arith
    asy (pos a) (negsuc b) h = ground arith
    asy (negsuc a) (pos b) h = ground arith
    asy (negsuc a) (negsuc b) h = ground arith

    neg : (a b c : ℤ) → zero_last b a ≡ false → zero_last c b ≡ false → zero_last c a ≡ false
    neg (pos a) (pos b) (pos c) h k = ground arith
    neg (pos a) (pos b) (negsuc c) h k = ground arith
    neg (pos a) (negsuc b) (pos c) h k = ground arith
    neg (pos a) (negsuc b) (negsuc c) h k = ground arith
    neg (negsuc a) (pos b) (pos c) h k = ground arith
    neg (negsuc a) (pos b) (negsuc c) h k = ground arith
    neg (negsuc a) (negsuc b) (pos c) h k = ground arith
    neg (negsuc a) (negsuc b) (negsuc c) h k = ground arith

    tot : (a b : ℤ) → zero_last a b ≡ false → zero_last b a ≡ false → a ≡ b
    tot (pos a) (pos b) h k = ground arith
    tot (pos a) (negsuc b) h k = ground arith
    tot (negsuc a) (pos b) h k = ground arith
    tot (negsuc a) (negsuc b) h k = ground arith
