-- ===== src/Base/Base64.antt =====
-- base64.RawURLEncoding of Go's encoding/base64, on bytes.
use flickr.Base.Tests.{ltb, leb, ◌==◌, nat_eq, if◌then◌else◌, ◌>>=◌}
use flickr.Base.Lists.{All}
use flickr.Base.Text.{Bytes}
use Prim.Native.Nat.{ℕ, ◌+◌, ◌-◌, ◌*◌, ◌/◌, ◌%◌, ◌<◌}
use mathlib.Core.Path.{◌≡◌, refl, ap}
use mathlib.Core.Bool.{false, ◌&&◌, ◌||◌}
use mathlib.Core.Logic.{◌≢◌}
use mathlib.Core.List.{List, [], ◌∷◌, map}
use mathlib.Core.Option.{Option, none, some}
use native.Mathlib.Omega.{arith}

-- A-Z, a-z, 0-9, - and _.
unfoldable pub letter : ℕ → ℕ
letter n =
    if ltb n 26
    then b'A' + n
    else if ltb n 52
    then b'a' + (n - 26)
    else if ltb n 62
    then b'0' + (n - 52)
    else if n == 62
    then b'-'
    else b'_'

unfoldable pub sextet : ℕ → Option ℕ
sextet c =
    if leb b'A' c && leb c b'Z'
    then some (c - b'A')
    else if leb b'a' c && leb c b'z'
    then some (c - b'a' + 26)
    else if leb b'0' c && leb c b'9'
    then some (c - b'0' + 52)
    else if c == b'-'
    then some 62
    else if c == b'_'
    then some 63
    else none

-- Three bytes are four times six bits; what is left is filled up with zeros.
unfoldable pub bits_of : Bytes → List ℕ
bits_of [] = []
bits_of (a ∷ []) = (a / 4) ∷ (a % 4 * 16) ∷ []
bits_of (a ∷ b ∷ []) = (a / 4) ∷ (a % 4 * 16 + b / 16) ∷ (b % 16 * 4) ∷ []
bits_of (a ∷ b ∷ c ∷ s) =
    (a / 4) ∷ (a % 4 * 16 + b / 16) ∷ (b % 16 * 4 + c / 64) ∷ (c % 64) ∷ bits_of s

-- EncodeToString
unfoldable pub encode : Bytes → Bytes
unfolding letter bits_of
encode s = map letter (bits_of s)

-- The six bits of every letter; line breaks are passed over, and any other byte is an error.
unfoldable pub sextets : Bytes → Option (List ℕ)
unfolding sextet
sextets [] = some []
sextets (c ∷ s) =
    if c == 10 || c == 13 then sextets s else sextet c >>= λ n. sextets s >>= λ ns. some (n ∷ ns)

-- Four letters are three bytes; the bits left over at the end are dropped, and a single letter is an
-- error.
unfoldable pub bytes_of : List ℕ → Option Bytes
bytes_of [] = some []
bytes_of (p ∷ []) = none
bytes_of (p ∷ q ∷ []) = some ((p * 4 + q / 16) ∷ [])
bytes_of (p ∷ q ∷ r ∷ []) = some ((p * 4 + q / 16) ∷ (q % 16 * 16 + r / 4) ∷ [])
bytes_of (p ∷ q ∷ r ∷ t ∷ ns) =
    bytes_of ns >>= λ s. some ((p * 4 + q / 16) ∷ (q % 16 * 16 + r / 4) ∷ (r % 4 * 64 + t) ∷ s)

-- DecodeString
unfoldable pub decode : Bytes → Option Bytes
unfolding sextets bytes_of
decode s = sextets s >>= bytes_of

abbrev pub IsByte : ℕ → Type 0
IsByte c = c < 256

sextet-letter : (n : ℕ) → n < 64 → sextet (letter n) ≡ some n
unfolding sextet letter
sextet-letter n h = ground arith

letter-ne_break : (n : ℕ) → (letter n == 10 || letter n == 13) ≡ false
unfolding letter
letter-ne_break n = ground arith

sextets-letter :
    (n : ℕ) (s : Bytes) (ns : List ℕ)
    → n < 64
    → sextets s ≡ some ns
    → sextets (letter n ∷ s) ≡ some (n ∷ ns)
unfolding sextets
sextets-letter n s ns small h =
    rw (letter-ne_break n, if◌then◌else◌, sextet-letter n small, ◌>>=◌, h, ◌>>=◌) refl

sextets-letters : (ns : List ℕ) → All (λ n. n < 64) ns → sextets (map letter ns) ≡ some ns
unfolding sextets
sextets-letters [] h = refl
sextets-letters (n ∷ ns) (small, h) =
    sextets-letter n (map letter ns) ns small (sextets-letters ns h)

bits_of-small : (s : Bytes) → All IsByte s → All (λ n. n < 64) (bits_of s)
unfolding bits_of
bits_of-small [] h = tt
bits_of-small (a ∷ []) h = (omega arith, (omega arith, tt))
bits_of-small (a ∷ b ∷ []) h = (omega arith, (omega arith, (omega arith, tt)))
bits_of-small (a ∷ b ∷ c ∷ s) (ha, (hb, (hc, h))) =
    (omega arith, (omega arith, (omega arith, (omega arith, bits_of-small s h))))

first_byte : (a b : ℕ) → IsByte b → a / 4 * 4 + (a % 4 * 16 + b / 16) / 16 ≡ a
first_byte a b h = omega arith

bytes_of-bits_of : (s : Bytes) → All IsByte s → bytes_of (bits_of s) ≡ some s
unfolding bits_of bytes_of
bytes_of-bits_of [] h = refl
bytes_of-bits_of (a ∷ []) h =
    let first : a / 4 * 4 + a % 4 * 16 / 16 ≡ a = omega arith in ap (λ x. some (x ∷ [])) first
bytes_of-bits_of (a ∷ b ∷ []) (ha, (hb, h)) =
    let second : (a % 4 * 16 + b / 16) % 16 * 16 + b % 16 * 4 / 4 ≡ b = omega arith in
    λ i. some (first_byte a b hb i ∷ second i ∷ [])
bytes_of-bits_of (a ∷ b ∷ c ∷ s) (ha, (hb, (hc, h))) =
    let second : (a % 4 * 16 + b / 16) % 16 * 16 + (b % 16 * 4 + c / 64) / 4 ≡ b = omega arith in
    let third : (b % 16 * 4 + c / 64) % 4 * 64 + c % 64 ≡ c = omega arith in
    rw (bytes_of-bits_of s h, ◌>>=◌) (λ i. some (first_byte a b hb i ∷ second i ∷ third i ∷ s))

-- What is encoded is decoded again.
pub decode-encode : (s : Bytes) → All IsByte s → decode (encode s) ≡ some s
unfolding decode encode
decode-encode s h =
    rw (sextets-letters (bits_of s) (bits_of-small s h), ◌>>=◌) (bytes_of-bits_of s h)

-- No letter is a dot.
letter-ne_dot : (n : ℕ) → letter n ≢ b'.'
unfolding letter
letter-ne_dot n e = ground arith

letters-no_dot : (ns : List ℕ) → All (λ c. c ≢ b'.') (map letter ns)
letters-no_dot [] = tt
letters-no_dot (n ∷ ns) = (letter-ne_dot n, letters-no_dot ns)

pub encode-no_dot : (s : Bytes) → All (λ c. c ≢ b'.') (encode s)
unfolding encode
encode-no_dot s = letters-no_dot (bits_of s)
