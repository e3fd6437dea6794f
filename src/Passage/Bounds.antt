-- ===== src/Passage/Bounds.antt =====
-- What Parse in internal/passage/passage.go gives: a passage that names something, with an end behind
-- its start, and what the routes make of it.
use flickr.Base.{
  Bool, true, false, Option, none, some, [], ◌≡◌, refl, ◌⊎◌, inl, inr, Bytes, if◌then◌else◌, arith,
  Bool-cases, Option-cases, subst,
}
use flickr.Base.Float.{Floats}
use flickr.Passage.Values.{QueryValues}
use flickr.Passage.Numbers.{parse_item_id}
use flickr.Passage.{Passage, parse, of_values, bound, until_id, until_code, non_empty, empty}

if_same : {A : Type 0} (b : Bool) (x : A) → (if b then x else x) ≡ x
if_same true x = refl
if_same false x = refl

module _ {F : Type 0} where
  guarded :
      (b : Bool) (x : Option (Passage F)) (p : Passage F)
      → (if b then none else x) ≡ some p
      → x ≡ some p
  guarded b x p h = ground arith

  non_empty-some : (x p : Passage F) → non_empty x ≡ some p → (x ≡ p) × (empty x ≡ false)
  unfolding non_empty
  non_empty-some x p h = ground arith

module _ (fl : Floats) where
  open fl use {Float, le}

  -- An end stands behind the start, and a run ends at an id or at a code, never both.
  abbrev pub Bounded : Option Float → Option Float → Type 0
  Bounded (some t) (some end) = le end t ≡ false
  Bounded _ _ = Unit

  pub record IsParsed (p : Passage Float) : Type 0 where
    pub order : Bounded p.t p.end
    pub one_until : (p.until ≡ none) ⊎ (p.until_ep ≡ [])
    pub names : empty p ≡ false

  bound-Bounded : (t end : Option Float) → Bounded t (bound fl t end)
  unfolding bound
  bound-Bounded none end = tt
  bound-Bounded (some t) none = tt
  bound-Bounded (some t) (some end) = elim (Bool-cases (le end t)) [
    | inl late ↦ rw (late, if◌then◌else◌) tt
    | inr ahead ↦ rw (ahead, if◌then◌else◌) ahead
  ]

  until_one : (v : Bytes) → (until_id fl v ≡ none) ⊎ (until_code fl v ≡ [])
  unfolding until_id until_code
  until_one v = elim (Option-cases (parse_item_id v)) [
    | inl code ↦ inl (rw (code, if_same))
    | inr (id, read) ↦ inr (rw read (ground arith))
  ]

  of_values-IsParsed :
      (vals : QueryValues) → empty (of_values fl vals) ≡ false → IsParsed (of_values fl vals)
  unfolding of_values
  of_values-IsParsed vals named = record {
    order = bound-Bounded _ _;
    one_until = until_one _;
    names = named;
  }

  -- Parse gives a passage that names something, has its end behind its start, and runs until an id or a code.
  pub parse-IsParsed : (s : Bytes) (p : Passage Float) → parse fl s ≡ some p → IsParsed p
  unfolding parse
  parse-IsParsed s p h =
      let (same, named) = non_empty-some _ p (guarded _ _ p h) in
      subst IsParsed same (of_values-IsParsed _ named)
