-- ===== src/Works/Continue/Resume.antt =====
-- What the resume list of internal/works/progress.go holds: how far each of its entries is.
use flickr.Base.{
  ℕ, int_eq, true, false, not, Option, none, some, List, [], ◌∷◌, ◌≡◌, refl, subst, inl, inr, Bytes,
  bytes_eq, if_cases, if_split, All, All-take, Bool-cases, Option-cases,
}
use flickr.Base.Float.{Floats}
use flickr.Base.Sort.{All-sort_by}
use flickr.Works.Items.{Item}
use flickr.Works.Neighbours.{next_member}
use flickr.Works.Work.{Work}
use flickr.Works.Build.{Keyed, by_item}
use flickr.Works.Place.{Position, nought, watched_at, is_watched, item_duration, text_fraction}
use flickr.Works.Continue.{
  ContinueEntry, Latest, entry_for, advance, resume, start_of, entry_of, entries_of, more_recent,
  continue_list, multi_part, item_at,
}

module _ (fl : Floats) where
  -- What holds of an entry, where there is one.
  abbrev pub OnEntry : (ContinueEntry fl.Float → Type 0) → Option (ContinueEntry fl.Float) → Type 0
  OnEntry P none = Unit
  OnEntry P (some e) = P e

  -- The outcomes for a work's latest position.
  pub entry_of-cases :
      (P : ContinueEntry fl.Float → Type 0) (ws : List (Work fl.Float)) (l : Latest fl) (k : Bytes)
      (p : Position fl.Float)
      → ((w : Work fl.Float) (it : Item fl.Float) (f : fl.Float)
          → fl.le (watched_at fl) f ≡ false
          → P (entry_for fl w k it (nought fl) f p.updated_at))
      → ((w : Work fl.Float) (it : Item fl.Float)
          → is_watched fl p.position_seconds (item_duration fl it) ≡ false
          → P (entry_for fl w k it p.position_seconds (nought fl) p.updated_at))
      → ((w : Work fl.Float) (next : Item fl.Float)
          → P (entry_for fl w k next (start_of fl l next) (nought fl) p.updated_at))
      → OnEntry P (entry_of fl ws l (k, p))
  unfolding entry_of resume advance
  entry_of-cases P ws l k p text here further = elim (Option-cases (by_item ws p.item_id)) [
    | inl gone ↦ rw (gone, entry_of) tt
    | inr (w, of_work) ↦ elim (Option-cases (item_at ws p.item_id)) [
      | inl gone ↦ rw (of_work, gone, entry_of) tt
      | inr (it, there) ↦
          rw (of_work, there, entry_of)
            (elim (Option-cases p.locator) [
              | inl clocked ↦
                  rw (clocked, resume)
                    (if_split (OnEntry P) (is_watched fl p.position_seconds (item_duration fl it)) _
                      _
                      (λ watched.
                        if_cases (OnEntry P) (not (multi_part w)) _ _ tt
                          (elim (Option-cases (next_member w.items p.item_id)) [
                            | inl last ↦ rw last tt
                            | inr (next, there) ↦ rw there (further w next)
                          ]))
                      (λ unwatched. here w it unwatched))
              | inr (loc, placed) ↦
                  rw (placed, resume)
                    (if_split (OnEntry P)
                      (fl.le (watched_at fl) (text_fraction fl (some it) (some loc))) _ _
                      (λ done. tt) (λ unread. text w it _ unread))
            ])
    ]
  ]

  -- Neither the text nor the clock has reached the end.
  abbrev pub Unfinished : ContinueEntry fl.Float → Type 0
  Unfinished e =
      (fl.le (watched_at fl) e.fraction ≡ false)
      × (is_watched fl e.position_seconds e.duration_seconds ≡ false)

  module _ (unread : fl.le (watched_at fl) (nought fl) ≡ false)
      (unstarted : (d : fl.Float)
        → fl.lt (nought fl) d ≡ true
        → fl.le (fl.mul (watched_at fl) d) (nought fl) ≡ false) where
    is_watched-nought : (d : fl.Float) → is_watched fl (nought fl) d ≡ false
    is_watched-nought d = elim (Bool-cases (fl.lt (nought fl) d)) [
      | inl long ↦ rw (long, unstarted d long) refl
      | inr short ↦ rw short refl
    ]

    start_of-unwatched :
        (l : Latest fl) (next : Item fl.Float)
        → is_watched fl (start_of fl l next) (item_duration fl next) ≡ false
    unfolding start_of
    start_of-unwatched l next = elim (Option-cases (l.of_item next.id)) [
      | inl fresh ↦ rw (fresh, start_of) (is_watched-nought (item_duration fl next))
      | inr (np, there) ↦
          rw (there, start_of)
            (if_split (λ t. is_watched fl t (item_duration fl next) ≡ false)
              (is_watched fl np.position_seconds (item_duration fl next)) _ _
              (λ watched. is_watched-nought (item_duration fl next)) (λ own. own))
    ]

    entry_of-Unfinished :
        (ws : List (Work fl.Float)) (l : Latest fl) (k : Bytes) (p : Position fl.Float)
        → OnEntry Unfinished (entry_of fl ws l (k, p))
    unfolding entry_for
    entry_of-Unfinished ws l k p =
        entry_of-cases Unfinished ws l k p
          (λ w it f h. (h, is_watched-nought (item_duration fl it))) (λ w it h. (unread, h))
          (λ w next. (unread, start_of-unwatched l next))

    entries_of-Unfinished :
        (ws : List (Work fl.Float)) (l : Latest fl) (m : Keyed (Position fl.Float))
        → All Unfinished (entries_of fl ws l m)
    unfolding entries_of
    entries_of-Unfinished ws l [] = tt
    entries_of-Unfinished ws l ((k, p) ∷ m) = elim (Option-cases (entry_of fl ws l (k, p))) [
      | inl gone ↦ rw (gone, entries_of) (entries_of-Unfinished ws l m)
      | inr (e, there) ↦
          rw (there, entries_of)
            (
              subst (OnEntry Unfinished) there (entry_of-Unfinished ws l k p),
              entries_of-Unfinished ws l m,
            )
    ]

    -- Nothing that is finished is resumed, where floats are such that 0.9 is above zero and so is 0.9 of a positive float.
    pub continue_list-Unfinished :
        (ws : List (Work fl.Float)) (ps : List (Position fl.Float)) (max : ℕ)
        → All Unfinished (continue_list fl ws ps max)
    unfolding continue_list
    continue_list-Unfinished ws ps max =
        All-take Unfinished max _
          (All-sort_by (more_recent fl) Unfinished _ (entries_of-Unfinished ws _ _))
