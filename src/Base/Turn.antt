-- ===== src/Base/Turn.antt =====
-- What it says of two elements that a comparison by several criteria in turn does not put the first
-- behind the second, and of a list that none is put behind a later one.
use flickr.Base.Tests.{Comparable, ◌==◌, if◌then◌else◌, Bool-cases}
use flickr.Base.Lists.{All, All-map}
use flickr.Base.Int.{ℤ, pos, negsuc, lt_int, int_beq, int_eq}
use flickr.Base.Sort.{IsSorted}
use flickr.Base.Order.{IsStrict, by_key_then, zero_last}
use mathlib.Core.Path.{◌≡◌, refl, sym}
use mathlib.Core.Logic.{◌⊎◌, inl, inr}
use mathlib.Core.Bool.{Bool, true, false, not, ◌||◌}
use mathlib.Core.List.{List, [], ◌∷◌}
use native.Mathlib.Omega.{arith}

-- Of two different numbers, the zero is last.
pub unnumbered :
    (a b : ℤ)
    → (a == b) ≡ false
    → (if a == pos 0 || b == pos 0 then b == pos 0 else lt_int a b) ≡ zero_last a b
unfolding int_beq
unnumbered (pos a) (pos b) h = ground arith
unnumbered (pos a) (negsuc b) h = ground arith
unnumbered (negsuc a) (pos b) h = ground arith
unnumbered (negsuc a) (negsuc b) h = ground arith

-- One step of a comparison: `if a != b` decides, else the next criterion does.
pub criterion :
    (same differ differ' next next' : Bool)
    → (same ≡ false → differ ≡ differ')
    → next ≡ next'
    → (if not same then differ else next) ≡ (if same then next' else differ')
criterion true differ differ' next next' h k = k
criterion false differ differ' next next' h k = h refl

-- No element is out of order with one behind it.
abbrev pub AllInOrder {ℓ} : {A : Type ℓ} → (A → A → Type 0) → List A → Type ℓ
AllInOrder R [] = Unit
AllInOrder R (x ∷ xs) = All (R x) xs × AllInOrder R xs

-- The last criterion of an order ties.
abbrev pub Tied {ℓ} : {A : Type ℓ} → A → A → Type 0
Tied x y = Unit

module _ {ℓ} {A : Type ℓ} where
  pub IsSorted-AllInOrder :
      (less : A → A → Bool) (R : A → A → Type 0) (xs : List A)
      → ((x y : A) → less y x ≡ false → R x y)
      → IsSorted less xs
      → AllInOrder R xs
  IsSorted-AllInOrder less R [] f h = tt
  IsSorted-AllInOrder less R (x ∷ xs) f (hx, h) =
      (All-map (λ y. less y x ≡ false) (R x) xs (f x) hx, IsSorted-AllInOrder less R xs f h)

  module _ {K : Type 0} (key : A → K) (lt : K → K → Bool) where
    -- Less by a key, or of the same key and in order by the rest.
    abbrev pub InTurn : (A → A → Type 0) → A → A → Type 0
    InTurn Rest x y = (lt (key x) (key y) ≡ true) ⊎ ((key x ≡ key y) × Rest x y)

    pub last-InTurn : IsStrict lt → (x y : A) → lt (key y) (key x) ≡ false → InTurn Tied x y
    last-InTurn strict x y h = elim (Bool-cases (lt (key x) (key y))) [
      | inl less ↦ inl less
      | inr no_less ↦ inr (strict.total (key x) (key y) no_less h, tt)
    ]

    module _ ⦃e : Comparable K⦄ (strict : IsStrict lt) (rest : A → A → Bool)
        (Rest : A → A → Type 0) where
      pub by_key_then-InTurn :
          ((x y : A) → rest y x ≡ false → Rest x y)
          → (x y : A) → by_key_then key lt rest y x ≡ false
          → InTurn Rest x y
      by_key_then-InTurn f x y h = elim (Bool-cases (key y == key x)) [
        | inl same ↦
            inr (sym ((e.equals_iff (key y) (key x)).0 same), f x y (rw (same, if◌then◌else◌) at h))
        | inr other ↦ elim (Bool-cases (lt (key x) (key y))) [
          | inl less ↦ inl less
          | inr no_less ↦
              let tie = strict.total (key x) (key y) no_less (rw (other, if◌then◌else◌) at h) in
              absurd (cc ((e.equals_iff (key y) (key x)).1 (sym tie), other))
        ]
      ]
