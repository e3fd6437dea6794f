-- ===== src/Base/Lists.antt =====
-- Lists measured and indexed by native numbers, and membership as Go's `slices.Contains`.
use Prim.Native.Nat.{ℕ, zero, suc, ◌+◌}
use mathlib.Core.Path.{◌≡◌, sym}
use mathlib.Core.Logic.{◌↔◌, ◌⊎◌, inl, inr}
use mathlib.Core.Logic.Or
use mathlib.Core.Bool.{Bool, true, false, ◌||◌, Bool-set}
use mathlib.Core.List.{
  List, [], ◌∷◌, ◌++◌, Mem, mem-cons, mem-cons_self, mem-cons_of_mem, not-mem-nil,
}
use mathlib.Core.Option.{Option, none, some}
use native.Mathlib.Omega.{arith}
use flickr.Base.Tests.{Comparable, ◌==◌, Bool-cases}

module _ {ℓ} {A : Type ℓ} where
  abbrev pub length : List A → ℕ
  length [] = 0
  length (x ∷ xs) = suc (length xs)

  abbrev pub get_elem? : List A → ℕ → Option A
  get_elem? [] i = none
  get_elem? (x ∷ xs) zero = some x
  get_elem? (x ∷ xs) (suc i) = get_elem? xs i

  abbrev pub is_empty : List A → Bool
  is_empty [] = true
  is_empty (x ∷ xs) = false

  abbrev pub take : ℕ → List A → List A
  take zero xs = []
  take (suc n) [] = []
  take (suc n) (x ∷ xs) = x ∷ take n xs

  pub length-append : (xs ys : List A) → length (xs ++ ys) ≡ length xs + length ys
  length-append [] ys = omega arith
  length-append (x ∷ xs) ys = omega (arith, length-append xs ys)

-- One of a list at least.
abbrev pub Any {ℓ} : {A : Type ℓ} → (A → Type 0) → List A → Type 0
Any P [] = ⊥
Any P (x ∷ xs) = P x ⊎ Any P xs

module _ {ℓ κ} {A : Type ℓ} (P : A → Type κ) where
  abbrev pub All : List A → Type κ
  All [] = Unit
  All (x ∷ xs) = P x × All xs

  pub All-append : (xs ys : List A) → All xs → All ys → All (xs ++ ys)
  All-append [] ys _ hy = hy
  All-append (x ∷ xs) ys (px, hx) hy = (px, All-append xs ys hx hy)

pub All-take {ℓ κ} :
    {A : Type ℓ} (P : A → Type κ) (n : ℕ) (xs : List A) → All P xs → All P (take n xs)
All-take P zero xs h = tt
All-take P (suc n) [] h = tt
All-take P (suc n) (x ∷ xs) (px, h) = (px, All-take P n xs h)

-- A weaker predicate holds wherever a stronger one does.
pub All-map {ℓ κ κ'} :
    {A : Type ℓ} (P : A → Type κ) (Q : A → Type κ') (xs : List A)
    → ((a : A) → P a → Q a)
    → All P xs
    → All Q xs
All-map P Q [] f _ = tt
All-map P Q (x ∷ xs) f (px, h) = (f x px, All-map P Q xs f h)

-- slices.Contains
module _ {ℓ} {A : Type ℓ} ⦃e : Comparable A⦄ where
  unfoldable pub contains : List A → A → Bool
  contains [] a = false
  contains (x ∷ xs) a = x == a || contains xs a

  contains→mem : (xs : List A) (a : A) → contains xs a ≡ true → Mem a xs
  unfolding contains
  contains→mem [] a h = cc
  contains→mem (x ∷ xs) a h = elim (Bool-cases (x == a)) [
    | inl same ↦ rw (← (e.equals_iff x a).0 same) mem-cons_self
    | inr other ↦ mem-cons_of_mem x (contains→mem xs a (ground arith))
  ]

  mem→contains : (xs : List A) (a : A) → Mem a xs → contains xs a ≡ true
  unfolding contains
  mem→contains [] a m = absurd (not-mem-nil m)
  mem→contains (x ∷ xs) a m =
      Or.elim (Bool-set _ _) (mem-cons.0 m)
        (λ same. ground (arith, (e.equals_iff x a).1 (sym same)))
        (λ m'. ground (arith, mem→contains xs a m'))

  -- The test finds exactly the members.
  pub contains_iff : (xs : List A) (a : A) → (contains xs a ≡ true) ↔ Mem a xs
  contains_iff xs a = (contains→mem xs a, mem→contains xs a)
