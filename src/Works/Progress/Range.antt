-- ===== src/Works/Progress/Range.antt =====
-- The bounds within which the standings of internal/works/progress.go lie.
use flickr.Base.{
  true, false, Option, none, some, List, [], ◌∷◌, ◌≡◌, inl, inr, str, bytes_eq, ◌==◌, if◌then◌else◌,
  if_split, if_cases, Bool-cases, Option-cases, some_inj,
}
use flickr.Base.Float.{Floats}
use flickr.Model.{Locator}
use flickr.Works.Items.{Item}
use flickr.Works.Work.{Work}
use flickr.Works.Place.{Position, nought, whole_one, fraction, clamp01, text_fraction}
use flickr.Works.Progress.{
  Progress, Positions, have, best_of, book_progress, parts_of, furthest_from, parts_progress,
  single_progress, clocked_progress, parted_progress, placed_progress, reported, work_progress,
}

module _ (fl : Floats) where
  -- Neither below 0 nor above 1.
  abbrev pub InUnit : fl.Float → Type 0
  InUnit f = (fl.lt f (nought fl) ≡ false) × (fl.lt (whole_one fl) f ≡ false)

  module _ (irreflexive : (a : fl.Float) → fl.lt a a ≡ false)
      (asymmetric : (a b : fl.Float) → fl.lt a b ≡ true → fl.lt b a ≡ false)
      (unit : fl.lt (nought fl) (whole_one fl) ≡ true) where
    nought-InUnit : InUnit (nought fl)
    nought-InUnit = (irreflexive (nought fl), asymmetric (nought fl) (whole_one fl) unit)

    whole_one-InUnit : InUnit (whole_one fl)
    whole_one-InUnit = (asymmetric (nought fl) (whole_one fl) unit, irreflexive (whole_one fl))

    fraction-InUnit : (p dur : fl.Float) → InUnit (fraction fl p dur)
    unfolding fraction
    fraction-InUnit p dur = if_cases InUnit (fl.le dur (nought fl)) _ _ nought-InUnit (
        if_split InUnit (fl.lt (fl.div p dur) (nought fl)) _ _ (λ below. nought-InUnit)
          (λ above.
            if_split InUnit (fl.lt (whole_one fl) (fl.div p dur)) _ _ (λ beyond. whole_one-InUnit)
              (λ within. (above, within))))

    clamp01-InUnit : (f : fl.Float) → InUnit (clamp01 fl f)
    unfolding clamp01
    clamp01-InUnit f = elim (Bool-cases (fl.lt (nought fl) f)) [
      | inl above ↦
          rw (above, if◌then◌else◌)
            (if_split InUnit (fl.lt (whole_one fl) f) _ _ (λ beyond. whole_one-InUnit)
              (λ within. (asymmetric (nought fl) f above, within)))
      | inr below ↦ rw (below, if◌then◌else◌) nought-InUnit
    ]

    text_fraction-InUnit :
        (it : Option (Item fl.Float)) (loc : Option (Locator fl.Float))
        → InUnit (text_fraction fl it loc)
    unfolding text_fraction
    text_fraction-InUnit it none = nought-InUnit
    text_fraction-InUnit it (some loc) =
        if_cases InUnit _ _ _ (fraction-InUnit _ _) (clamp01-InUnit loc.fraction)

    -- The fraction of a standing.
    abbrev Within : Progress fl.Float → Type 0
    Within pr = InUnit pr.fraction

    book_progress-Within :
        (w : Work fl.Float) (p : Position fl.Float) (ps : List (Position fl.Float)) (t : fl.Float)
        → Within (book_progress fl w p ps t)
    unfolding book_progress
    book_progress-Within w p ps t = elim (Option-cases (best_of fl p ps).locator) [
      | inl unplaced ↦ rw (unplaced, book_progress) nought-InUnit
      | inr (loc, placed) ↦ rw (placed, book_progress) (text_fraction-InUnit _ _)
    ]

    parts_progress-Within :
        (w : Work fl.Float) (ps : Positions fl) (t : fl.Float) (pr : Progress fl.Float)
        → parts_progress fl w ps t ≡ some pr
        → Within pr
    unfolding parts_progress
    parts_progress-Within w ps t pr h =
        elim (Option-cases (furthest_from fl none 0 (parts_of fl w.items) ps)) [
          | inl unheard ↦ cc (rw (unheard, parts_progress) at h)
          | inr (found, there) ↦
              rw (← some_inj (rw (there, parts_progress) at h)) (fraction-InUnit _ _)
        ]

    clocked_progress-Within :
        (w : Work fl.Float) (ps : Positions fl) (p : Position fl.Float)
        (rest : List (Position fl.Float)) (t : fl.Float)
        → (w.kind == str "show") ≡ false
        → Within (clocked_progress fl w ps p rest t)
    unfolding clocked_progress single_progress
    clocked_progress-Within w ps p rest t other = rw (other, if◌then◌else◌) (fraction-InUnit _ _)

    parted_progress-Within :
        (w : Work fl.Float) (ps : Positions fl) (p : Position fl.Float)
        (rest : List (Position fl.Float)) (t : fl.Float)
        → (w.kind == str "show") ≡ false
        → Within (parted_progress fl w ps p rest t)
    unfolding parted_progress
    parted_progress-Within w ps p rest t other = elim (Option-cases (parts_progress fl w ps t)) [
      | inl unheard ↦ rw (unheard, parted_progress) (clocked_progress-Within w ps p rest t other)
      | inr (pr, heard) ↦ rw (heard, parted_progress) (parts_progress-Within w ps t pr heard)
    ]

    placed_progress-Within :
        (w : Work fl.Float) (ps : Positions fl) (p : Position fl.Float)
        (rest : List (Position fl.Float)) (t : fl.Float)
        → (w.kind == str "show") ≡ false
        → Within (placed_progress fl w ps p rest t)
    unfolding placed_progress
    placed_progress-Within w ps p rest t other =
        if_cases Within (w.kind == str "book") _ _ (book_progress-Within w p rest t) (
          if_cases Within _ _ _ (parted_progress-Within w ps p rest t other)
            (clocked_progress-Within w ps p rest t other))

    -- Of a work that is no show, the fraction is never below 0 nor above 1, where floats compare as IEEE 754 has it.
    pub work_progress-InUnit :
        (w : Work fl.Float) (ps : Positions fl) (pr : Progress fl.Float)
        → (w.kind == str "show") ≡ false
        → work_progress fl w ps ≡ some pr
        → InUnit pr.fraction
    unfolding work_progress reported
    work_progress-InUnit w ps pr other h = within (have fl w.items ps) h
      where
        within : (ps' : List (Position fl.Float)) → reported fl w ps ps' ≡ some pr → Within pr
        within [] h = cc
        within (p ∷ ps') h = rw (← some_inj h) (placed_progress-Within w ps p ps' _ other)
