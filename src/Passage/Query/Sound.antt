-- ===== src/Passage/Query/Sound.antt =====
-- The passages that Query in internal/passage/passage.go writes without loss, and their parts as
-- entries.
use flickr.Base.{
  ℤ, pos, negsuc, show_int, false, Option, none, some, [], ◌∷◌, ◌≡◌, refl, ◌≢◌, ◌≤◌, Bytes, str,
  bytes_beq, show, show-digits, nat_eq, bytes_eq, All, All-append, All-map, arith, IsDigit,
  ne_by_test,
}
use flickr.Base.Float.{Floats}
use flickr.Passage.Escape.{
  escape_component-IsPlain, IsByte, IsPlain, unescape-escape_component, IsLiteral, unescape-literal,
}
use flickr.Passage.Values.RoundTrip.{Encodes, Lacks}
use flickr.Passage.Query.Entries.{entries, number_entry, text_entry, until_entry}
use flickr.Passage.Numbers.{
  max_int64, parse_item_id, parse_seconds, parse_seconds-bytes, IsSecondsByte,
}
use flickr.Passage.{Passage, empty}

module _ (fl : Floats) where
  open fl use {Float, le, format}

  -- A number that the grammar's seconds can say: its notation reads back as itself.
  abbrev pub IsSeconds : Float → Type 0
  IsSeconds v = parse_seconds fl (format v) ≡ some v

  abbrev pub AllOf : Option Float → Type 0
  AllOf none = Unit
  AllOf (some v) = IsSeconds v

  abbrev pub Ordered : Option Float → Option Float → Type 0
  Ordered (some t) (some end) = le end t ≡ false
  Ordered _ _ = Unit

  -- A run ends at an id that ParseInt reads, or at a code.
  abbrev pub Runs : Option ℤ → Bytes → Type 0
  Runs none code = Unit
  Runs (some (pos n)) code = (n ≤ max_int64) × (code ≡ [])
  Runs (some (negsuc n)) code = ⊥

  -- What `Parse` gives, and what a link may hold.
  pub record IsSound (p : Passage Float) : Type 0 where
    pub t : AllOf p.t
    pub end : AllOf p.end
    pub order : Ordered p.t p.end
    pub until : Runs p.until p.until_ep
    pub until_ep : (parse_item_id p.until_ep ≡ none) × All IsByte p.until_ep
    pub ep : All IsByte p.ep
    pub from : All IsByte p.from
    pub to : All IsByte p.to
    pub names : empty p ≡ false

  -- A key of the grammar.
  abbrev IsKey : Bytes → Type 0
  IsKey k = (k ≢ []) × Lacks b'?' k × All IsPlain k × All IsLiteral k

  text_entry-Encodes :
      (key v : Bytes) → IsKey key → All IsByte v → All Encodes (text_entry fl key v)
  unfolding text_entry
  text_entry-Encodes key [] k h = tt
  text_entry-Encodes key (c ∷ s) (named, unmarked, separates, literal) h = (
    record {
      named = named;
      unmarked_key = unmarked;
      plain_key = separates;
      plain_value = escape_component-IsPlain (c ∷ s) h;
      key_reads = unescape-literal key literal;
      value_reads = unescape-escape_component (c ∷ s) h;
    },
    tt,
  )

  -- A text of seconds, digits included, stands for itself.
  seconds-Encodes :
      (key v : Bytes)
      → IsKey key
      → All IsSecondsByte v
      → Encodes (record { key = key; written = v; meant = v })
  seconds-Encodes key v (named, unmarked, separates, literal) h = record {
    named = named;
    unmarked_key = unmarked;
    plain_key = separates;
    plain_value = All-map IsSecondsByte IsPlain v (λ c b. omega arith) h;
    key_reads = unescape-literal key literal;
    value_reads = unescape-literal v (All-map IsSecondsByte IsLiteral v (λ c b. omega arith) h);
  }

  number_entry-Encodes :
      (key : Bytes) (o : Option Float) → IsKey key → AllOf o → All Encodes (number_entry fl key o)
  unfolding number_entry
  number_entry-Encodes key none k h = tt
  number_entry-Encodes key (some v) k h =
      (seconds-Encodes key (format v) k (parse_seconds-bytes fl (format v) v h), tt)

  until_entry-Encodes :
      (o : Option ℤ) (code : Bytes)
      → Runs o code
      → All IsByte code
      → All Encodes (until_entry fl o code)
  unfolding until_entry str show_int
  until_entry-Encodes none code r h =
      text_entry-Encodes (str "until") code
        (ne_by_test (unfold bytes_beq in refl), omega arith, omega arith, omega arith) h
  until_entry-Encodes (some (negsuc n)) code r h = absurd r
  until_entry-Encodes (some (pos n)) code r h = (
    seconds-Encodes (str "until") (show n)
        (ne_by_test (unfold bytes_beq in refl), omega arith, omega arith, omega arith)
        (All-map IsDigit IsSecondsByte (show n) (λ c d. omega arith) (show-digits n)),
    tt,
  )

  t-IsKey : IsKey (str "t")
  unfolding str bytes_beq
  t-IsKey = (ne_by_test refl, omega arith, omega arith, omega arith)

  end-IsKey : IsKey (str "end")
  unfolding str bytes_beq
  end-IsKey = (ne_by_test refl, omega arith, omega arith, omega arith)

  ep-IsKey : IsKey (str "ep")
  unfolding str bytes_beq
  ep-IsKey = (ne_by_test refl, omega arith, omega arith, omega arith)

  from-IsKey : IsKey (str "from")
  unfolding str bytes_beq
  from-IsKey = (ne_by_test refl, omega arith, omega arith, omega arith)

  to-IsKey : IsKey (str "to")
  unfolding str bytes_beq
  to-IsKey = (ne_by_test refl, omega arith, omega arith, omega arith)

  pub entries-Encodes : (p : Passage Float) → IsSound p → All Encodes (entries fl p)
  unfolding entries
  entries-Encodes p h = All-append Encodes _ _ (number_entry-Encodes (str "t") p.t t-IsKey h.t) (
      All-append Encodes _ _ (number_entry-Encodes (str "end") p.end end-IsKey h.end) (
        All-append Encodes _ _ (until_entry-Encodes p.until p.until_ep h.until h.until_ep.1) (
          All-append Encodes _ _ (text_entry-Encodes (str "ep") p.ep ep-IsKey h.ep) (
            All-append Encodes _ _ (text_entry-Encodes (str "from") p.from from-IsKey h.from)
              (All-append Encodes _ _ (text_entry-Encodes (str "to") p.to to-IsKey h.to) tt)))))
