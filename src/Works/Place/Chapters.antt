-- ===== src/Works/Place/Chapters.antt =====
-- The chapter that a position falls in: chapterAt of internal/works/progress.go.
use flickr.Base.{
  ℕ, suc, ◌+◌, true, false, List, [], ◌∷◌, ◌++◌, ◌≡◌, refl, ap, ◌⊎◌, inl, inr, if◌then◌else◌,
  length, All, Bool-cases, arith,
}
use flickr.Base.Float.{Floats}
use flickr.Model.{Chapter}
use flickr.Works.Place.{chapter_at, chapter_from}

module _ (fl : Floats) where
  -- No chapter of a list starts by then.
  abbrev pub NoneStarted : fl.Float → List (Chapter fl.Float) → Type 0
  NoneStarted p = All (λ c. fl.le c.start_seconds p ≡ false)

  -- The last chapter that starts by then, and how many stand before it.
  pub record LastStarted (cs : List (Chapter fl.Float)) (p : fl.Float) (index : ℕ) : Type 0 where
    pub before : List (Chapter fl.Float)
    pub chapter : Chapter fl.Float
    pub behind : List (Chapter fl.Float)
    pub split : cs ≡ before ++ chapter ∷ behind
    pub started : fl.le chapter.start_seconds p ≡ true
    pub later : NoneStarted p behind
    pub place : index ≡ length before

  chapter_from-LastStarted :
      (n i : ℕ) (cs : List (Chapter fl.Float)) (p : fl.Float)
      → (NoneStarted p cs × (chapter_from fl n i cs p ≡ n))
        ⊎ ((k : ℕ) × LastStarted cs p k × (chapter_from fl n i cs p ≡ suc (i + k)))
  unfolding chapter_from
  chapter_from-LastStarted n i [] p = inl (tt, refl)
  chapter_from-LastStarted n i (c ∷ cs) p = elim (Bool-cases (fl.le c.start_seconds p)) [
    | inl starts ↦
        rw (starts, if◌then◌else◌)
          (elim (chapter_from-LastStarted (suc i) (suc i) cs p) [
            | inl (later, is) ↦ inr (
              0,
              record {
                before = [];
                chapter = c;
                behind = cs;
                split = refl;
                started = starts;
                later = later;
                place = refl;
              },
              omega (arith, is),
            )
            | inr (k, last, is) ↦ inr (suc k, further c cs p k last, omega (arith, is))
          ])
    | inr waits ↦
        rw (waits, if◌then◌else◌)
          (elim (chapter_from-LastStarted n (suc i) cs p) [
            | inl (later, is) ↦ inl ((refl, later), is)
            | inr (k, last, is) ↦ inr (suc k, further c cs p k last, omega (arith, is))
          ])
  ]
    where
      further :
          (c : Chapter fl.Float) (cs : List (Chapter fl.Float)) (p : fl.Float) (k : ℕ)
          → LastStarted cs p k
          → LastStarted (c ∷ cs) p (suc k)
      further c cs p k last = record {
        before = c ∷ last.before;
        chapter = last.chapter;
        behind = last.behind;
        split = ap (λ r. c ∷ r) last.split;
        started = last.started;
        later = last.later;
        place = ap suc last.place;
      }

  -- The chapter of a position is 0 without chapters, 1 where none has started, and else the place, counted from 1, of the last that starts by then.
  pub chapter_at-LastStarted :
      (cs : List (Chapter fl.Float)) (p : fl.Float)
      → ((cs ≡ []) × (chapter_at fl cs p ≡ 0))
        ⊎ ((NoneStarted p cs × (chapter_at fl cs p ≡ 1))
            ⊎ ((k : ℕ) × LastStarted cs p k × (chapter_at fl cs p ≡ suc k)))
  unfolding chapter_at
  chapter_at-LastStarted [] p = inl (refl, refl)
  chapter_at-LastStarted (c ∷ cs) p = inr (elim (chapter_from-LastStarted 1 0 (c ∷ cs) p) [
    | inl early ↦ inl early
    | inr (k, last, is) ↦ inr (k, last, omega (arith, is))
  ])
