-- ===== src/Base/Assoc.antt =====
-- Go's maps with text as keys, as lists of entries with one entry for a key.
use flickr.Base.Tests.{◌==◌, if◌then◌else◌, Bool-cases, if_cases}
use flickr.Base.Lists.{All, All-append}
use flickr.Base.Text.{Bytes, bytes_beq_iff, bytes_eq}
use mathlib.Core.Path.{◌≡◌, refl, sym, ap, ◌∙◌}
use mathlib.Core.Logic.{inl, inr}
use mathlib.Core.Bool.{true, false, true≢false}
use mathlib.Core.List.{List, [], ◌∷◌, ◌++◌}
use mathlib.Core.Option.{Option, none, some}

-- No key of the list is this one.
abbrev pub Lacks : Bytes → List Bytes → Type 0
Lacks k ks = All (λ j. (j == k) ≡ false) ks

abbrev pub Distinct : List Bytes → Type 0
Distinct [] = Unit
Distinct (k ∷ ks) = Lacks k ks × Distinct ks

unfoldable pub without : Bytes → List Bytes → List Bytes
without k [] = []
without k (j ∷ js) = let rest = without k js in if j == k then rest else j ∷ rest

pub different_sym : (a b : Bytes) → (a == b) ≡ false → (b == a) ≡ false
different_sym a b h = elim (Bool-cases (b == a)) [
  | inl same ↦
      absurd (true≢false (sym ((bytes_beq_iff a b).1 (sym ((bytes_beq_iff b a).0 same))) ∙ h))
  | inr other ↦ other
]

same_self : (k : Bytes) → (k == k) ≡ true
same_self k = (bytes_beq_iff k k).1 refl

pub without-Lacks : (k : Bytes) (js : List Bytes) → Lacks k js → without k js ≡ js
unfolding without
without-Lacks k [] h = refl
without-Lacks k (j ∷ js) (hj, h) = rw (hj, if◌then◌else◌) (ap (λ r. j ∷ r) (without-Lacks k js h))

pub Lacks-without : (i k : Bytes) (js : List Bytes) → Lacks i js → Lacks i (without k js)
unfolding without
Lacks-without i k [] h = tt
Lacks-without i k (j ∷ js) (hj, h) =
    if_cases (Lacks i) (j == k) _ _ (Lacks-without i k js h) (hj, Lacks-without i k js h)

pub Distinct-without : (k : Bytes) (js : List Bytes) → Distinct js → Distinct (without k js)
unfolding without
Distinct-without k [] h = tt
Distinct-without k (j ∷ js) (hj, h) =
    if_cases Distinct (j == k) _ _ (Distinct-without k js h)
      (Lacks-without j k js hj, Distinct-without k js h)

pub Distinct-append :
    (js : List Bytes) (k : Bytes) → Distinct js → Lacks k js → Distinct (js ++ k ∷ [])
Distinct-append [] k h hk = (tt, tt)
Distinct-append (j ∷ js) k (hj, h) (hjk, hk) = (
  All-append (λ i. (i == j) ≡ false) js (k ∷ []) hj (different_sym j k hjk, tt),
  Distinct-append js k h hk,
)

module _ {ℓ} {A : Type ℓ} where
  abbrev pub keys : List (Bytes × A) → List Bytes
  keys [] = []
  keys ((k, a) ∷ l) = k ∷ keys l

  unfoldable pub get : Bytes → List (Bytes × A) → Option A
  get k [] = none
  get k ((j, a) ∷ l) = if j == k then some a else get k l

  -- In the place of the key's entry, or behind the others.
  unfoldable pub put : Bytes → A → List (Bytes × A) → List (Bytes × A)
  put k a [] = (k, a) ∷ []
  put k a ((j, b) ∷ l) = let rest = put k a l in if j == k then (j, a) ∷ l else (j, b) ∷ rest

  unfoldable pub delete : Bytes → List (Bytes × A) → List (Bytes × A)
  delete k [] = []
  delete k ((j, b) ∷ l) = let rest = delete k l in if j == k then rest else (j, b) ∷ rest

  pub keys-put_new :
      (k : Bytes) (a : A) (l : List (Bytes × A))
      → Lacks k (keys l)
      → keys (put k a l) ≡ keys l ++ k ∷ []
  unfolding put
  keys-put_new k a [] h = refl
  keys-put_new k a ((j, b) ∷ l) (hj, h) =
      rw (hj, if◌then◌else◌) (ap (λ r. j ∷ r) (keys-put_new k a l h))

  pub get_held : (k : Bytes) (b : A) (l : List (Bytes × A)) → get k l ≡ some b → ¬ Lacks k (keys l)
  unfolding get
  get_held k b [] h lacks = cc
  get_held k b ((j, c) ∷ l) h (hj, lacks) = get_held k b l (rw (hj, if◌then◌else◌) at h) lacks

  pub keys-put_held :
      (k : Bytes) (a : A) (l : List (Bytes × A)) → ¬ Lacks k (keys l) → keys (put k a l) ≡ keys l
  unfolding put
  keys-put_held k a [] h = absurd (h tt)
  keys-put_held k a ((j, c) ∷ l) h = elim (Bool-cases (j == k)) [
    | inl same ↦ rw (same, if◌then◌else◌) refl
    | inr other ↦
        rw (other, if◌then◌else◌)
          (ap (λ r. j ∷ r) (keys-put_held k a l (λ lacks. h (other, lacks))))
  ]

  pub keys-delete : (k : Bytes) (l : List (Bytes × A)) → keys (delete k l) ≡ without k (keys l)
  unfolding delete without
  keys-delete k [] = refl
  keys-delete k ((j, b) ∷ l) = elim (Bool-cases (j == k)) [
    | inl same ↦ rw (same, if◌then◌else◌) (keys-delete k l)
    | inr other ↦ rw (other, if◌then◌else◌) (ap (λ r. j ∷ r) (keys-delete k l))
  ]

  pub get-Lacks : (k : Bytes) (l : List (Bytes × A)) → get k l ≡ none → Lacks k (keys l)
  unfolding get
  get-Lacks k [] h = tt
  get-Lacks k ((j, a) ∷ l) h = elim (Bool-cases (j == k)) [
    | inl same ↦ absurd (cc (rw (same, if◌then◌else◌) at h))
    | inr other ↦ (other, get-Lacks k l (rw (other, if◌then◌else◌) at h))
  ]

  delete-Lacks : (k : Bytes) (l : List (Bytes × A)) → Lacks k (keys l) → delete k l ≡ l
  unfolding delete
  delete-Lacks k [] h = refl
  delete-Lacks k ((j, b) ∷ l) (hj, h) =
      rw (hj, if◌then◌else◌) (ap (λ r. (j, b) ∷ r) (delete-Lacks k l h))

  pub delete_first :
      (k : Bytes) (a : A) (l : List (Bytes × A)) → Lacks k (keys l) → delete k ((k, a) ∷ l) ≡ l
  unfolding delete
  delete_first k a l h = rw (same_self k, if◌then◌else◌) (delete-Lacks k l h)

  unfoldable pub delete_each : List Bytes → List (Bytes × A) → List (Bytes × A)
  delete_each [] l = l
  delete_each (k ∷ ks) l = delete_each ks (delete k l)

  pub delete_each_behind :
      (k : Bytes) (a : A) (ks : List Bytes) (l : List (Bytes × A))
      → All (λ j. (k == j) ≡ false) ks
      → delete_each ks ((k, a) ∷ l) ≡ (k, a) ∷ delete_each ks l
  unfolding delete_each delete
  delete_each_behind k a [] l h = refl
  delete_each_behind k a (j ∷ ks) l (hj, h) =
      ap (λ b. delete_each ks (if b then delete j l else (k, a) ∷ delete j l)) hj
      ∙ delete_each_behind k a ks (delete j l) h

  pub delete_each-keys : (l : List (Bytes × A)) → Distinct (keys l) → delete_each (keys l) l ≡ []
  unfolding delete_each
  delete_each-keys [] h = refl
  delete_each-keys ((k, a) ∷ l) (hk, h) =
      ap (delete_each (keys l)) (delete_first k a l hk) ∙ delete_each-keys l h
