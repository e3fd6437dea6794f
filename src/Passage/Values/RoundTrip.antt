-- ===== src/Passage/Values/RoundTrip.antt =====
-- A query that is put together from escaped values reads back as these.
use flickr.Base.{
  ℕ, false, some, List, [], ◌∷◌, ◌++◌, ◌≡◌, refl, ◌≢◌, ap, ◌∙◌, Bytes, join, nat_eq, bytes_eq,
  contains, cut_byte, if◌then◌else◌, ◌>>=◌, map, All, All-append, All-map, arith, is_empty,
}
use flickr.Passage.Escape.{unescape, plain, IsPlain}
use flickr.Passage.Values.{segments, pair, key_value, decode, pairs, parse_query}

-- A key, its value as written, and the value that it stands for.
pub record Entry : Type 0 where
  pub key : Bytes
  pub written : Bytes
  pub meant : Bytes

abbrev pub part : Entry → Bytes
part e = e.key ++ b'=' ∷ e.written

abbrev pub meaning : Entry → Bytes × Bytes
meaning e = (e.key, e.meant)

-- Nothing in it separates, and it stands for its value.
pub record Encodes (e : Entry) : Type 0 where
  pub named : e.key ≢ []
  pub unmarked_key : All (λ c. c ≢ b'?') e.key
  pub plain_key : All IsPlain e.key
  pub plain_value : All IsPlain e.written
  pub key_reads : unescape plain e.key ≡ some e.key
  pub value_reads : unescape plain e.written ≡ some e.meant

abbrev pub Lacks : ℕ → Bytes → Type 0
Lacks b = All (λ c. c ≢ b)

segments_last : (b : ℕ) (s : Bytes) → Lacks b s → segments b s ≡ s ∷ []
unfolding segments
segments_last b [] h = refl
segments_last b (c ∷ s) (ne, h) = ground (arith, segments_last b s h)

segments_first :
    (b : ℕ) (s rest : Bytes) → Lacks b s → segments b (s ++ b ∷ rest) ≡ s ∷ segments b rest
unfolding segments
segments_first b [] rest h = ground arith
segments_first b (c ∷ s) rest (ne, h) = ground (arith, segments_first b s rest h)

-- Joined parts come apart again.
segments-join :
    (b : ℕ) (p : Bytes) (ps : List Bytes)
    → All (Lacks b) (p ∷ ps)
    → segments b (join (b ∷ []) (p ∷ ps)) ≡ p ∷ ps
unfolding join
segments-join b p [] (h, _) = segments_last b p h
segments-join b p (q ∷ ps) (h, hs) =
    segments_first b p _ h ∙ ap (λ r. p ∷ r) (segments-join b q ps hs)

pub cut_byte_first :
    (b : ℕ) (s rest : Bytes) → Lacks b s → cut_byte b (s ++ b ∷ rest) ≡ some (s, rest)
unfolding cut_byte
cut_byte_first b [] rest h = ground arith
cut_byte_first b (c ∷ s) rest (ne, h) = ground (arith, cut_byte_first b s rest h)

contains-Lacks : (b : ℕ) (s : Bytes) → Lacks b s → contains s b ≡ false
unfolding contains
contains-Lacks b [] h = refl
contains-Lacks b (c ∷ s) (ne, h) = ground (arith, contains-Lacks b s h)

part-Lacks_amp : (e : Entry) → Encodes e → Lacks b'&' (part e)
part-Lacks_amp e h =
    All-append _ e.key _ (All-map IsPlain _ e.key (λ c p. p.0) h.plain_key)
      (omega arith, All-map IsPlain _ e.written (λ c p. p.0) h.plain_value)

part-Lacks_semicolon : (e : Entry) → Encodes e → Lacks b';' (part e)
part-Lacks_semicolon e h =
    All-append _ e.key _ (All-map IsPlain _ e.key (λ c p. p.2) h.plain_key)
      (omega arith, All-map IsPlain _ e.written (λ c p. p.2) h.plain_value)

is_empty-part : (k s : Bytes) → is_empty (k ++ b'=' ∷ s) ≡ false
is_empty-part [] s = refl
is_empty-part (c ∷ k) s = refl

key_value-part : (e : Entry) → Encodes e → key_value (part e) ≡ (e.key, e.written)
unfolding key_value
key_value-part e h = rw (
  cut_byte_first b'=' e.key e.written (All-map IsPlain _ e.key (λ c p. p.1) h.plain_key),
  key_value,
)

decode-written : (e : Entry) → Encodes e → decode (e.key, e.written) ≡ some (meaning e)
unfolding decode
decode-written e h = rw (h.key_reads, h.value_reads, ◌>>=◌)

pair-part : (e : Entry) → Encodes e → pair (part e) ≡ some (meaning e)
unfolding pair
pair-part e h =
    rw
      (
        contains-Lacks b';' (part e) (part-Lacks_semicolon e h),
        is_empty-part e.key e.written,
        if◌then◌else◌,
        key_value-part e h,
      )
      (decode-written e h)

pairs-map : (es : List Entry) → All Encodes es → pairs (map part es) ≡ map meaning es
unfolding pairs
pairs-map [] h = refl
pairs-map (e ∷ es) (h, hs) = rw (pair-part e h, pairs) (ap (λ r. meaning e ∷ r) (pairs-map es hs))

pub parse_query-join :
    (es : List Entry)
    → All Encodes es
    → parse_query (join (b'&' ∷ []) (map part es)) ≡ map meaning es
unfolding parse_query
parse_query-join [] h = unfold join segments pair contains in refl
parse_query-join (e ∷ es) hs =
    rw (segments-join b'&' (part e) (map part es) (All_parts (e ∷ es) hs)) (pairs-map (e ∷ es) hs)
  where
    All_parts : (es : List Entry) → All Encodes es → All (Lacks b'&') (map part es)
    All_parts [] h = tt
    All_parts (e ∷ es) (h, hs) = (part-Lacks_amp e h, All_parts es hs)

is_empty_append : (s t : Bytes) → is_empty s ≡ false → is_empty (s ++ t) ≡ false
is_empty_append [] t h = cc
is_empty_append (c ∷ s) t h = refl

pub is_empty-join :
    (e : Entry) (es : List Entry) → is_empty (join (b'&' ∷ []) (map part (e ∷ es))) ≡ false
unfolding join
is_empty-join e [] = is_empty-part e.key e.written
is_empty-join e (e' ∷ es) = is_empty_append (part e) _ (is_empty-part e.key e.written)
