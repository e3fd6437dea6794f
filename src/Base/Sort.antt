-- ===== src/Base/Sort.antt =====
-- sort.SliceStable as an insertion sort, sums over a list, and the order of Go's strings.
use flickr.Base.Tests.{ltb, ◌==◌, nat_eq, if◌then◌else◌, Bool-cases}
use flickr.Base.Lists.{All, All-map, length}
use flickr.Base.Text.{Bytes}
use Prim.Native.Nat.{ℕ, ◌+◌}
use mathlib.Core.Path.{◌≡◌, refl}
use mathlib.Core.Logic.{inl, inr}
use mathlib.Core.Bool.{Bool, true, false}
use mathlib.Core.List.{List, [], ◌∷◌, ◌++◌}
use native.Mathlib.Omega.{arith}

-- `<` on strings is bytewise.
unfoldable pub bytes_lt : Bytes → Bytes → Bool
bytes_lt s [] = false
bytes_lt [] (d ∷ t) = true
bytes_lt (c ∷ s) (d ∷ t) = let rest = bytes_lt s t in if c == d then rest else ltb c d

module _ {ℓ} {A : Type ℓ} where
  -- The sum of a measure over a list.
  abbrev pub total : (A → ℕ) → List A → ℕ
  total f [] = 0
  total f (x ∷ xs) = f x + total f xs

  -- How many of a list pass a test.
  abbrev pub count : (A → Bool) → List A → ℕ
  count p = total (λ x. if p x then 1 else 0)

  -- The same members, each as often, in any order.
  abbrev pub SameMembers : List A → List A → Type ℓ
  SameMembers xs ys = (p : A → Bool) → count p xs ≡ count p ys

  pub total-append : (f : A → ℕ) (xs ys : List A) → total f (xs ++ ys) ≡ total f xs + total f ys
  total-append f [] ys = omega arith
  total-append f (x ∷ xs) ys = omega (arith, total-append f xs ys)

  total-ones : (xs : List A) → total (λ x. 1) xs ≡ length xs
  total-ones [] = refl
  total-ones (x ∷ xs) = omega (arith, total-ones xs)

  module _ (less : A → A → Bool) where
    -- Behind every element that is less, and before those that tie with it.
    unfoldable pub insert_by : A → List A → List A
    insert_by x [] = x ∷ []
    insert_by x (y ∷ ys) = let rest = insert_by x ys in if less y x then y ∷ rest else x ∷ y ∷ ys

    unfoldable pub sort_by : List A → List A
    unfolding insert_by
    sort_by [] = []
    sort_by (x ∷ xs) = insert_by x (sort_by xs)

    pub total-insert_by :
        (f : A → ℕ) (x : A) (xs : List A) → total f (insert_by x xs) ≡ f x + total f xs
    unfolding insert_by
    total-insert_by f x [] = refl
    total-insert_by f x (y ∷ ys) = ground (arith, total-insert_by f x ys)

    -- A sort keeps every member.
    pub total-sort_by : (f : A → ℕ) (xs : List A) → total f (sort_by xs) ≡ total f xs
    unfolding sort_by
    total-sort_by f [] = refl
    total-sort_by f (x ∷ xs) = omega (arith, total-insert_by f x (sort_by xs), total-sort_by f xs)

    pub length-sort_by : (xs : List A) → length (sort_by xs) ≡ length xs
    length-sort_by xs =
        omega (arith, total-ones (sort_by xs), total-ones xs, total-sort_by (λ x. 1) xs)

    -- No element is less than one before it.
    abbrev pub IsSorted : List A → Type ℓ
    IsSorted [] = Unit
    IsSorted (x ∷ xs) = All (λ y. less y x ≡ false) xs × IsSorted xs

    module _ {κ} (P : A → Type κ) where
      pub All-insert_by : (x : A) (xs : List A) → P x → All P xs → All P (insert_by x xs)
      unfolding insert_by
      All-insert_by x [] px h = (px, tt)
      All-insert_by x (y ∷ ys) px (py, h) = elim (Bool-cases (less y x)) [
        | inl before ↦ rw (before, if◌then◌else◌) (py, All-insert_by x ys px h)
        | inr behind ↦ rw (behind, if◌then◌else◌) (px, (py, h))
      ]

      pub All-sort_by : (xs : List A) → All P xs → All P (sort_by xs)
      unfolding sort_by
      All-sort_by [] h = tt
      All-sort_by (x ∷ xs) (px, h) = All-insert_by x (sort_by xs) px (All-sort_by xs h)

    -- `less` is a strict weak order.
    pub record IsOrder : Type ℓ where
      pub asymmetric : (x y : A) → less x y ≡ true → less y x ≡ false
      pub negated_trans : (x y z : A) → less y x ≡ false → less z y ≡ false → less z x ≡ false

    insert_by-IsSorted : IsOrder → (x : A) (xs : List A) → IsSorted xs → IsSorted (insert_by x xs)
    unfolding insert_by
    insert_by-IsSorted o x [] s = (tt, tt)
    insert_by-IsSorted o x (y ∷ ys) (below, s) = elim (Bool-cases (less y x)) [
      | inl before ↦
          rw (before, if◌then◌else◌)
            (
              All-insert_by (λ z. less z y ≡ false) x ys (o.asymmetric y x before) below,
              insert_by-IsSorted o x ys s,
            )
      | inr behind ↦
          rw (behind, if◌then◌else◌)
            ((behind, All-map _ _ ys (λ z h. o.negated_trans x y z behind h) below), (below, s))
    ]

    pub sort_by-IsSorted : IsOrder → (xs : List A) → IsSorted (sort_by xs)
    unfolding sort_by
    sort_by-IsSorted o [] = tt
    sort_by-IsSorted o (x ∷ xs) = insert_by-IsSorted o x (sort_by xs) (sort_by-IsSorted o xs)
