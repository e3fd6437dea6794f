-- ===== src/Passage/Place/Canonical.antt =====
-- What ParseLocator in internal/passage/passage.go gives is a locator that String can write.
use flickr.Base.{
  guard_then, pos, Bool, true, false, ◌||◌, Option, none, some, ◌≡◌, refl, ◌⊎◌, inl, inr, sym, ap,
  ◌∙◌, Bytes, str, bytes_eq, bytes_beq_iff, ◌==◌, if◌then◌else◌, is_empty, cut_byte, arith,
  some_inj,
}
use flickr.Base.Trim.{trim_space}
use flickr.Base.Float.{Floats}
use flickr.Passage.Place.{
  Locator, is_cfi, is_count, atoi, is_fraction, to_lower, by_cfi, by_count, by_fraction, parse_kind,
  parse_locator, string,
}
use flickr.Passage.Place.Ink.{is_count-IsCount, or_cases}
use flickr.Passage.Place.Spelling.{IsFraction, Spellable, at_fraction, parse_locator-string}

guard_else :
    {A : Type 0} (b : Bool) (o : Option A) (a : A) → (if b then none else o) ≡ some a → o ≡ some a
guard_else b o a h = ground arith

guard_first :
    {A : Type 0} (b : Bool) (o p : Option A) (a : A)
    → (if b then o else p) ≡ some a
    → ((b ≡ true) × (o ≡ some a)) ⊎ (p ≡ some a)
guard_first true o p a h = inl (refl, h)
guard_first false o p a h = inr h

module _ (fl : Floats) where
  open fl use {Float}

  -- A percentage whose number the notation gives back.
  abbrev pub WritesBack : Locator Float → Type 0
  WritesBack l = l.kind ≡ str "pct" → IsFraction fl l.f

  by_cfi-Spellable :
      (v : Bytes) (l : Locator Float)
      → (if is_cfi v then some (by_cfi fl v) else none) ≡ some l
      → Spellable fl l
  by_cfi-Spellable v l h = let (is, same) = guard_then _ _ l h in inl (v, is, sym same)

  by_count-Spellable :
      (kind v : Bytes) (l : Locator Float)
      → (kind ≡ str "ch") ⊎ (kind ≡ str "pg")
      → (if is_count v then some (by_count fl kind v) else none) ≡ some l
      → Spellable fl l
  unfolding by_count
  by_count-Spellable kind v l either h =
      let (is, same) = guard_then _ _ l h in
      inr (inl (kind, either, (pos (atoi v), is_count-IsCount v is, sym same)))

  by_fraction-Spellable :
      (v : Bytes) (l : Locator Float)
      → WritesBack l
      → (if is_fraction v then some (by_fraction fl v) else none) ≡ some l
      → Spellable fl l
  unfolding by_fraction
  by_fraction-Spellable v l back h =
      let (is, same) = guard_then _ _ l h in
      inr (
        inr (l.f, back (sym (ap (λ x. x.kind) same)), sym same ∙ ap (λ x. at_fraction fl x.f) same))

  parse_kind-Spellable :
      (kind rest : Bytes) (l : Locator Float)
      → WritesBack l
      → parse_kind fl kind rest ≡ some l
      → Spellable fl l
  unfolding parse_kind
  parse_kind-Spellable kind rest l back h =
      let cfi = if is_cfi rest then some (by_cfi fl rest) else none in
      let count = if is_count rest then some (by_count fl kind rest) else none in
      let fraction = if is_fraction rest then some (by_fraction fl rest) else none in
      let third = if kind == str "pct" then fraction else none in
      let second = if kind == str "ch" || kind == str "pg" then count else third in
      elim (guard_first (kind == str "cfi") cfi second l h) [
        | inl (_, h) ↦ by_cfi-Spellable rest l h
        | inr h ↦ elim (guard_first (kind == str "ch" || kind == str "pg") count third l h) [
          | inl (either, h) ↦
              by_count-Spellable kind rest l
                (spelled kind (or_cases (kind == str "ch") (kind == str "pg") either)) h
          | inr h ↦ elim (guard_first (kind == str "pct") fraction none l h) [
            | inl (_, h) ↦ by_fraction-Spellable rest l back h
            | inr h ↦ cc
          ]
        ]
      ]
    where
      spelled :
          (kind : Bytes)
          → ((kind == str "ch") ≡ true) ⊎ ((kind == str "pg") ≡ true)
          → (kind ≡ str "ch") ⊎ (kind ≡ str "pg")
      spelled kind (inl h) = inl ((bytes_beq_iff kind (str "ch")).0 h)
      spelled kind (inr h) = inr ((bytes_beq_iff kind (str "pg")).0 h)

  parse_locator-Spellable :
      (s : Bytes) (l : Locator Float) → WritesBack l → parse_locator fl s ≡ some l → Spellable fl l
  unfolding parse_locator
  parse_locator-Spellable s l back h =
      let v = trim_space s in
      let by_kind : Option (Locator Float) = elim (cut_byte b':' v) [
        | none ↦ none
        | some (kind, rest) ↦ parse_kind fl (to_lower kind) rest
      ] in
      let rest = guard_else (is_empty v) (if is_cfi v then some (by_cfi fl v) else by_kind) l h in
      elim (guard_first (is_cfi v) (some (by_cfi fl v)) by_kind l rest) [
        | inl (is, h) ↦ inl (trim_space s, is, sym (some_inj h))
        | inr h ↦ kind_read (cut_byte b':' (trim_space s)) h
      ]
    where
      kind_read :
          (o : Option (Bytes × Bytes))
          → elim o as (λ _. Option (Locator Float)) [
            | none ↦ none
            | some (kind, rest) ↦ parse_kind fl (to_lower kind) rest
          ]
            ≡ some l
          → Spellable fl l
      kind_read none h = cc
      kind_read (some (kind, rest)) h = parse_kind-Spellable (to_lower kind) rest l back h

  -- Whatever ParseLocator reads has a canonical spelling: String writes it, and it reads back as the same locator.
  pub parse_locator-canonical :
      (s : Bytes) (l : Locator Float)
      → parse_locator fl s ≡ some l
      → WritesBack l
      → parse_locator fl (string fl (some l)) ≡ some l
  parse_locator-canonical s l h back =
      parse_locator-string fl l (parse_locator-Spellable s l back h)
