-- ===== src/Passage/Escape.antt =====
-- The percent encoding of a passage: escapeComponent of internal/passage/passage.go, and
-- QueryUnescape of Go's net/url.
use flickr.Base.{
  ℕ, ◌+◌, ◌-◌, ◌*◌, ◌/◌, ◌%◌, ◌<◌, Bool, ◌&&◌, ◌||◌, Option, none, some, [], ◌∷◌, ◌++◌, ◌≡◌, refl,
  ◌≢◌, Bytes, ltb, leb, ◌==◌, nat_eq, if◌then◌else◌, arith, All, All-append, Bool-cases, inl, inr,
  true, false,
}

-- A-Z, a-z, 0-9 and -_.!~*'().
unfoldable pub is_safe : ℕ → Bool
is_safe c =
    (leb b'a' c && leb c b'z')
    || (leb b'A' c && leb c b'Z')
    || (leb b'0' c && leb c b'9')
    || c == b'-'
    || c == b'_'
    || c == b'.'
    || c == b'!'
    || c == b'~'
    || c == b'*'
    || c == 39
    || c == b'('
    || c == b')'

-- A digit of %02X.
hex : ℕ → ℕ
hex n = if ltb n 10 then b'0' + n else b'A' + (n - 10)

unfoldable pub escape_component : Bytes → Bytes
unfolding hex is_safe
escape_component [] = []
escape_component (c ∷ s) =
    (if is_safe c then c ∷ [] else b'%' ∷ hex (c / 16) ∷ hex (c % 16) ∷ []) ++ escape_component s

-- A hexadecimal digit of either case.
unhex : ℕ → Option ℕ
unhex c =
    if leb b'0' c && leb c b'9'
    then some (c - b'0')
    else if leb b'a' c && leb c b'f'
    then some (c - b'a' + 10)
    else if leb b'A' c && leb c b'F'
    then some (c - b'A' + 10)
    else none

-- What has been read of an escape.
pub data Pending : Type 0 where
  plain percent : Pending
  nibble : ℕ → Pending

-- none is the error of a malformed escape.
unfoldable pub unescape : Pending → Bytes → Option Bytes
unfolding unhex
unescape plain [] = some []
unescape percent [] = none
unescape (nibble h) [] = none
unescape plain (c ∷ s) = elim (c == b'%') [
  | true ↦ unescape percent s
  | false ↦ elim (unescape plain s) [
    | none ↦ none
    | some t ↦ some ((if c == b'+' then 32 else c) ∷ t)
  ]
]
unescape percent (c ∷ s) = elim (unhex c) [ none ↦ none | some h ↦ unescape (nibble h) s ]
unescape (nibble h) (c ∷ s) = elim (unhex c) [
  | none ↦ none
  | some l ↦ elim (unescape plain s) [ none ↦ none | some t ↦ some ((h * 16 + l) ∷ t) ]
]

abbrev pub IsByte : ℕ → Type 0
IsByte c = c < 256

unhex-hex : (n : ℕ) → n < 16 → unhex (hex n) ≡ some n
unfolding unhex hex
unhex-hex n h = ground arith

safe_plain : (c : ℕ) → is_safe c ≡ true → (c ≢ b'%') × (c ≢ b'+')
unfolding is_safe
safe_plain c h = ground arith

-- One escaped byte reads back as itself.
unescape_byte :
    (c : ℕ) (s : Bytes)
    → IsByte c
    → unescape plain (b'%' ∷ hex (c / 16) ∷ hex (c % 16) ∷ s)
      ≡ elim (unescape plain s) [ none ↦ none | some t ↦ some (c ∷ t) ]
unfolding unescape
unescape_byte c s b =
    ground (arith, unhex-hex (c / 16) (omega arith), unhex-hex (c % 16) (omega arith))

-- What is escaped reads back, whatever the bytes.
pub unescape-escape_component :
    (s : Bytes) → All IsByte s → unescape plain (escape_component s) ≡ some s
unfolding unescape escape_component
unescape-escape_component [] h = refl
unescape-escape_component (c ∷ s) (b, h) =
    let ih = unescape-escape_component s h in
    elim (Bool-cases (is_safe c)) [
      | inl safe ↦ rw (safe, if◌then◌else◌) (ground (arith, safe_plain c safe))
      | inr escaped ↦ rw (escaped, if◌then◌else◌, unescape_byte c (escape_component s) b, ih)
    ]

-- None of the separators of a query is left.
abbrev pub IsPlain : ℕ → Type 0
IsPlain c = (c ≢ b'&') × (c ≢ b'=') × (c ≢ b';')

hex-IsPlain : (n : ℕ) → n < 16 → IsPlain (hex n)
unfolding hex
hex-IsPlain n h = ground arith

safe_separates : (c : ℕ) → is_safe c ≡ true → IsPlain c
unfolding is_safe
safe_separates c h = ground arith

head-IsPlain :
    (c : ℕ)
    → IsByte c
    → All IsPlain (if is_safe c then c ∷ [] else b'%' ∷ hex (c / 16) ∷ hex (c % 16) ∷ [])
head-IsPlain c b = elim (Bool-cases (is_safe c)) [
  | inl safe ↦ rw (safe, if◌then◌else◌) (safe_separates c safe, tt)
  | inr escaped ↦
      rw (escaped, if◌then◌else◌)
        (
          ground arith,
          (hex-IsPlain (c / 16) (omega arith), (hex-IsPlain (c % 16) (omega arith), tt)),
        )
]

pub escape_component-IsPlain : (s : Bytes) → All IsByte s → All IsPlain (escape_component s)
unfolding escape_component
escape_component-IsPlain [] h = tt
escape_component-IsPlain (c ∷ s) (b, h) =
    All-append IsPlain _ _ (head-IsPlain c b) (escape_component-IsPlain s h)

-- What holds neither a percent sign nor a plus reads as itself.
abbrev pub IsLiteral : ℕ → Type 0
IsLiteral c = (c ≢ b'%') × (c ≢ b'+')

pub unescape-literal : (s : Bytes) → All IsLiteral s → unescape plain s ≡ some s
unfolding unescape
unescape-literal [] h = refl
unescape-literal (c ∷ s) (l, h) = ground (arith, unescape-literal s h)
