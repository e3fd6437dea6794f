-- ===== src/Base/Trim/Framed.antt =====
-- A text that begins and ends in ink is not trimmed.
use flickr.Base.Tests.{nat_eq}
use flickr.Base.Lists.{length}
use flickr.Base.Text.{Bytes}
use flickr.Base.Trim.{
  trim_space, drop_while, after_space, before_space, is_space, is_wide_2, is_wide_3,
}
use Prim.Native.Nat.{ℕ, zero, suc, ◌≤◌, ◌<◌}
use mathlib.Core.Path.{◌≡◌, refl}
use mathlib.Core.List.{[], ◌∷◌, ◌++◌, reverse, reverse-append, reverse-reverse}
use mathlib.Core.Option.{Option, none}
use native.Mathlib.Omega.{arith}

-- An ASCII character that is no space.
abbrev pub IsInk : ℕ → Type 0
IsInk c = (33 ≤ c) × (c < 128)

after_space-IsInk : (c : ℕ) (s : Bytes) → IsInk c → after_space (c ∷ s) ≡ none
unfolding after_space is_space is_wide_2 is_wide_3
after_space-IsInk c [] h = ground arith
after_space-IsInk c (a ∷ []) h = ground arith
after_space-IsInk c (a ∷ b ∷ s) h = ground arith

before_space-IsInk : (c : ℕ) (s : Bytes) → IsInk c → before_space (c ∷ s) ≡ none
unfolding before_space is_space is_wide_2 is_wide_3
before_space-IsInk c [] h = ground arith
before_space-IsInk c (a ∷ []) h = ground arith
before_space-IsInk c (a ∷ b ∷ s) h = ground arith

drop_while-none :
    (n : ℕ) (step : Bytes → Option Bytes) (s : Bytes) → step s ≡ none → drop_while n step s ≡ s
unfolding drop_while
drop_while-none zero step s h = refl
drop_while-none (suc n) step s h = rw (h, drop_while) refl

pub trim_space-IsInk :
    (c : ℕ) (s : Bytes) (d : ℕ)
    → IsInk c
    → IsInk d
    → trim_space (c ∷ (s ++ d ∷ [])) ≡ c ∷ (s ++ d ∷ [])
unfolding trim_space
trim_space-IsInk c s d ink_c ink_d =
    let t = c ∷ (s ++ d ∷ []) in
    let starts = drop_while-none (length t) after_space t (after_space-IsInk c _ ink_c) in
    let backwards : reverse t ≡ d ∷ reverse (c ∷ s) = reverse-append (c ∷ s) (d ∷ []) in
    rw
      (
        starts,
        backwards,
        drop_while-none (length t) before_space _ (before_space-IsInk d _ ink_d),
        ← backwards,
      )
      (reverse-reverse t)
