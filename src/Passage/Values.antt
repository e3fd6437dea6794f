-- ===== src/Passage/Values.antt =====
-- url.ParseQuery and Values.Get of Go's net/url, as far as a passage reads a query: the first value
-- of a key, and no pair that is malformed.
pub mod RoundTrip
use flickr.Base.{
  ℕ, Bool, true, false, Option, none, some, List, [], ◌∷◌, ◌++◌, Bytes, ◌==◌, nat_eq, bytes_eq,
  contains, cut_byte, if◌then◌else◌, ◌>>=◌, is_empty,
}
use flickr.Passage.Escape.{unescape, plain}

push : ℕ → List Bytes → List Bytes
push c [] = (c ∷ []) ∷ []
push c (x ∷ xs) = (c ∷ x) ∷ xs

-- What stands between the occurrences of a byte.
unfoldable pub segments : ℕ → Bytes → List Bytes
unfolding push
segments b [] = [] ∷ []
segments b (c ∷ s) = let rest = segments b s in if c == b then [] ∷ rest else push c rest

-- strings.Cut at "=": a key with no value has the empty one.
key_value : Bytes → Bytes × Bytes
key_value seg = elim (cut_byte b'=' seg) [ none ↦ (seg, []) | some kv ↦ kv ]

decode : Bytes × Bytes → Option (Bytes × Bytes)
decode (k, v) = do key ← unescape plain k; value ← unescape plain v; some (key, value)

-- A segment with a semicolon, an empty one and one with a malformed escape are passed over.
unfoldable pub pair : Bytes → Option (Bytes × Bytes)
unfolding key_value decode
pair seg = if contains seg b';' then none else if is_empty seg then none else decode (key_value seg)

pairs : List Bytes → List (Bytes × Bytes)
pairs [] = []
pairs (s ∷ rest) = elim (pair s) [ none ↦ pairs rest | some kv ↦ kv ∷ pairs rest ]

abbrev pub QueryValues : Type 0
QueryValues = List (Bytes × Bytes)

unfoldable pub parse_query : Bytes → QueryValues
unfolding pairs
parse_query query = pairs (segments b'&' query)

-- Values.Get: "" where the key is missing.
unfoldable pub get : Bytes → QueryValues → Bytes
get k [] = []
get k ((j, v) ∷ vs) = if j == k then v else get k vs
