-- ===== src/Base/FilePath.antt =====
-- path.Base and path.Ext of Go, on slash-separated keys, and strings.Fields.
use flickr.Base.Tests.{◌==◌, nat_eq, if◌then◌else◌, Bool-cases, Option-cases, some_inj}
use flickr.Base.Lists.{length, is_empty}
use flickr.Base.Text.{Bytes, bytes_eq, join, split_byte}
use flickr.Base.Trim.{after_space}
use Prim.Native.Nat.{ℕ, zero, suc, ◌+◌, ◌≤◌}
use mathlib.Core.Path.{◌≡◌, ◌∙◌}
use mathlib.Core.Logic.{inl, inr}
use mathlib.Core.Bool.{Bool, false, not, ◌&&◌, ◌||◌}
use native.Mathlib.Omega.{arith}
use mathlib.Core.List.{
  List, [], ◌∷◌, ◌++◌, reverse, reverse_aux, reverse_aux-append, reverse_aux-eq,
}
use mathlib.Core.Option.{Option, none, some}

-- What stands in front of the first slash: on a text given backwards, the last element.
up_to_slash : Bytes → Bytes
up_to_slash [] = []
up_to_slash (c ∷ s) = let rest = up_to_slash s in if c == b'/' then [] else c ∷ rest

drop_slashes : Bytes → Bytes
drop_slashes [] = []
drop_slashes (c ∷ s) = let rest = drop_slashes s in if c == b'/' then rest else c ∷ s

-- path.Base
unfoldable pub base : Bytes → Bytes
unfolding up_to_slash drop_slashes
base [] = b'.' ∷ []
base (c ∷ s) =
    let last = reverse (up_to_slash (drop_slashes (reverse (c ∷ s)))) in
    if is_empty last then b'/' ∷ [] else last

-- Up to and with the last dot, on a text given backwards: none where a slash or the start comes first.
dot_suffix : Bytes → Option Bytes
dot_suffix [] = none
dot_suffix (c ∷ s) =
    let rest = dot_suffix s in
    if c == b'/'
    then none
    else if c == b'.'
    then some (c ∷ [])
    else elim rest [ none ↦ none | some t ↦ some (c ∷ t) ]

-- path.Ext
unfoldable pub ext : Bytes → Bytes
unfolding dot_suffix
ext s = elim (dot_suffix (reverse s)) [ none ↦ [] | some t ↦ reverse t ]

-- A word that is not empty is put in front.
word : Bytes → List Bytes → List Bytes
word w words = if is_empty w then words else reverse w ∷ words

-- `w` is the word so far, backwards; each round drops a byte, so the length is fuel enough.
fields_from : ℕ → Bytes → Bytes → List Bytes
fields_from zero w s = word w []
fields_from (suc f) w [] = word w []
fields_from (suc f) w (c ∷ s) = elim (after_space (c ∷ s)) [
  | some s' ↦ word w (fields_from f [] s')
  | none ↦ fields_from f (c ∷ w) s
]

-- strings.Fields
unfoldable pub fields : Bytes → List Bytes
unfolding word fields_from
fields s = fields_from (length s) [] s

from_slash : Bytes → Bytes
from_slash [] = []
from_slash (c ∷ s) = let rest = from_slash s in if c == b'/' then c ∷ s else rest

-- One element of path.Clean; `done` are those so far, the last one first.
clean_step : Bool → Bytes → List Bytes → List Bytes
clean_step rooted e [] =
    if is_empty e || e == b'.' ∷ [] || (e == b'.' ∷ b'.' ∷ [] && rooted) then [] else e ∷ []
clean_step rooted e (d ∷ done) =
    if is_empty e || e == b'.' ∷ []
    then d ∷ done
    else if e == b'.' ∷ b'.' ∷ [] && not (d == b'.' ∷ b'.' ∷ [])
    then done
    else e ∷ d ∷ done

clean_all : Bool → List Bytes → List Bytes → List Bytes
clean_all rooted [] done = done
clean_all rooted (e ∷ es) done = clean_all rooted es (clean_step rooted e done)

is_rooted : Bytes → Bool
is_rooted [] = false
is_rooted (c ∷ s) = c == b'/'

-- path.Clean
unfoldable pub clean : Bytes → Bytes
unfolding clean_step clean_all is_rooted
clean s =
    let path = join (b'/' ∷ []) (reverse (clean_all (is_rooted s) (split_byte b'/' s) [])) in
    if is_rooted s then b'/' ∷ path else if is_empty path then b'.' ∷ [] else path

-- path.Dir
unfoldable pub dir : Bytes → Bytes
unfolding from_slash
dir s = clean (reverse (from_slash (reverse s)))

-- An extension is no longer than what stands behind a dot, with the dot.
dot_suffix-length :
    (s t e : Bytes) → dot_suffix (s ++ b'.' ∷ t) ≡ some e → length e ≤ suc (length s)
unfolding dot_suffix
dot_suffix-length [] t e h = rw (← some_inj h) (omega arith)
dot_suffix-length (c ∷ s) t e h = elim (Bool-cases (c == b'/')) [
  | inl slash ↦ absurd (cc (rw (slash, if◌then◌else◌) at h))
  | inr plain ↦ elim (Bool-cases (c == b'.')) [
    | inl dot ↦ rw (← some_inj (rw (plain, dot, if◌then◌else◌) at h)) (omega arith)
    | inr other ↦ elim (Option-cases (dot_suffix (s ++ b'.' ∷ t))) [
      | inl gone ↦ absurd (cc (rw (plain, other, gone, if◌then◌else◌) at h))
      | inr (e', there) ↦
          rw (← some_inj (rw (plain, other, there, if◌then◌else◌) at h))
            (omega (arith, dot_suffix-length s t e' there))
    ]
  ]
]

length-reverse_aux : (xs ys : Bytes) → length (reverse_aux xs ys) ≡ length xs + length ys
length-reverse_aux [] ys = omega arith
length-reverse_aux (x ∷ xs) ys = omega (arith, length-reverse_aux xs (x ∷ ys))

reverse-dot :
    (stem rest : Bytes) → reverse (stem ++ b'.' ∷ rest) ≡ reverse rest ++ b'.' ∷ reverse stem
reverse-dot stem rest =
    reverse_aux-append stem (b'.' ∷ rest) [] ∙ reverse_aux-eq rest (b'.' ∷ reverse stem)

pub length-ext : (stem rest : Bytes) → length (ext (stem ++ b'.' ∷ rest)) ≤ suc (length rest)
unfolding ext
length-ext stem rest = elim (Option-cases (dot_suffix (reverse (stem ++ b'.' ∷ rest)))) [
  | inl gone ↦ rw (ext, gone) (omega arith)
  | inr (e, there) ↦
      rw (ext, there)
        (omega (
          arith,
          length-reverse_aux e [],
          length-reverse_aux rest [],
          dot_suffix-length (reverse rest) (reverse stem) e (rw (reverse-dot stem rest) at there),
        ))
]
