-- ===== src/Passage/Query/Entries.antt =====
-- The parts of Passage.Query as entries: what each key of the written query finds.
use flickr.Base.{
  ℤ, show_int, Option, none, some, List, [], ◌∷◌, ◌++◌, ◌≡◌, refl, Bytes, str, bytes_beq, ◌==◌,
  nat_eq, bytes_eq, if◌then◌else◌, is_empty, map, arith,
}
use mathlib.Core.List.{map-append, append-nil}
use flickr.Base.Float.{Floats}
use flickr.Passage.Escape.{escape_component}
use flickr.Passage.Values.{QueryValues, get}
use flickr.Passage.Values.RoundTrip.{Entry, part, meaning}
use flickr.Passage.{Passage, parts, seconds_part, text_part, until_part}

module _ (fl : Floats) where
  open fl use {Float, le, format}

  unfoldable pub number_entry : Bytes → Option Float → List Entry
  number_entry key none = []
  number_entry key (some v) = record { key = key; written = format v; meant = format v } ∷ []

  unfoldable pub text_entry : Bytes → Bytes → List Entry
  text_entry key v =
      if is_empty v then [] else record { key = key; written = escape_component v; meant = v } ∷ []

  unfoldable pub until_entry : Option ℤ → Bytes → List Entry
  until_entry (some n) code =
      record { key = str "until"; written = show_int n; meant = show_int n } ∷ []
  until_entry none code = text_entry (str "until") code

  unfoldable pub entries : Passage Float → List Entry
  entries p =
      number_entry (str "t") p.t
      ++ (number_entry (str "end") p.end
          ++ (until_entry p.until p.until_ep
              ++ (text_entry (str "ep") p.ep
                  ++ (text_entry (str "from") p.from ++ (text_entry (str "to") p.to ++ [])))))

  part-number_entry :
      (key : Bytes) (o : Option Float) → seconds_part fl key o ≡ map part (number_entry key o)
  unfolding seconds_part number_entry
  part-number_entry key none = refl
  part-number_entry key (some v) = refl

  part-text_entry : (key v : Bytes) → text_part fl key v ≡ map part (text_entry key v)
  unfolding text_part text_entry
  part-text_entry key [] = refl
  part-text_entry key (c ∷ s) = refl

  part-until_entry :
      (o : Option ℤ) (code : Bytes) → until_part fl o code ≡ map part (until_entry o code)
  unfolding until_part until_entry
  part-until_entry none code = part-text_entry (str "until") code
  part-until_entry (some n) code = refl

  pub parts-entries : (p : Passage Float) → parts fl p ≡ map part (entries p)
  unfolding entries
  parts-entries p =
      unfold parts in
      simp (map-append, part-number_entry, part-text_entry, part-until_entry, append-nil)

  -- The notation of a number that is there.
  unfoldable pub number_or : Option Float → Bytes → Bytes
  number_or none d = d
  number_or (some v) d = format v

  unfoldable pub text_or : Bytes → Bytes → Bytes
  text_or v d = if is_empty v then d else v

  unfoldable pub until_or : Option ℤ → Bytes → Bytes → Bytes
  until_or none code d = text_or code d
  until_or (some n) code d = show_int n

  text_or-nil : (v : Bytes) → text_or v [] ≡ v
  unfolding text_or
  text_or-nil [] = refl
  text_or-nil (c ∷ s) = refl

  get-number_entry :
      (k key : Bytes) (o : Option Float) (vs : QueryValues)
      → get k (map meaning (number_entry key o) ++ vs)
        ≡ (if key == k then number_or o (get k vs) else get k vs)
  unfolding get number_entry number_or
  get-number_entry k key none vs = ground arith
  get-number_entry k key (some v) vs = ground arith

  get-text_entry :
      (k key v : Bytes) (vs : QueryValues)
      → get k (map meaning (text_entry key v) ++ vs)
        ≡ (if key == k then text_or v (get k vs) else get k vs)
  unfolding get text_entry text_or
  get-text_entry k key [] vs = ground arith
  get-text_entry k key (c ∷ s) vs = ground arith

  get-until_entry :
      (k : Bytes) (o : Option ℤ) (code : Bytes) (vs : QueryValues)
      → get k (map meaning (until_entry o code) ++ vs)
        ≡ (if str "until" == k then until_or o code (get k vs) else get k vs)
  unfolding get until_entry until_or
  get-until_entry k none code vs = get-text_entry k (str "until") code vs
  get-until_entry k (some n) code vs = ground arith

  ruleset get_laws = (map-append, get-number_entry, get-text_entry, get-until_entry, text_or-nil)

  -- Each key finds its own field.
  module _ (p : Passage Float) where
    pub get-t : get (str "t") (map meaning (entries p)) ≡ number_or p.t []
    unfolding entries str bytes_beq get
    get-t = simp get_laws

    pub get-end : get (str "end") (map meaning (entries p)) ≡ number_or p.end []
    unfolding entries str bytes_beq get
    get-end = simp get_laws

    pub get-until : get (str "until") (map meaning (entries p)) ≡ until_or p.until p.until_ep []
    unfolding entries str bytes_beq get
    get-until = simp get_laws

    pub get-ep : get (str "ep") (map meaning (entries p)) ≡ p.ep
    unfolding entries str bytes_beq get
    get-ep = simp get_laws

    pub get-from : get (str "from") (map meaning (entries p)) ≡ p.from
    unfolding entries str bytes_beq get
    get-from = simp get_laws

    pub get-to : get (str "to") (map meaning (entries p)) ≡ p.to
    unfolding entries str bytes_beq get
    get-to = simp get_laws
