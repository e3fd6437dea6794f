-- ===== src/Works/Place.antt =====
-- A playback row of internal/store/store.go, and how internal/works/progress.go reads its place: the
-- clock, the chapter, the fraction and whether its item is finished.
pub mod Clock
pub mod Chapters
use flickr.Base.{
  ℕ, zero, suc, ◌+◌, ◌/◌, ◌%◌, ℤ, pos, negsuc, int_eq, lt_int, Bool, true, false, not, ◌&&◌, ◌||◌,
  Option, none, some, List, [], ◌∷◌, ◌++◌, Bytes, str, bytes_eq, nat_eq, ◌==◌, if◌then◌else◌, show,
  show_02, show_int,
}
use flickr.Base.Float.{Floats}
use flickr.Model.{Locator, Chapter, MediaInfo}
use flickr.Works.Items.{Item}

pub record Position (F : Type 0) : Type 0 where
  pub item_id : ℤ
  pub client_id : Bytes
  pub position_seconds : F
  pub locator : Option (Locator F)
  pub updated_at : F
  pub seq : ℤ

abbrev pub middle_dot : Bytes
middle_dot = str " · "

-- A negative clock reads zero.
abbrev pub whole_seconds : ℤ → ℕ
whole_seconds (pos n) = n
whole_seconds (negsuc n) = 0

-- "43:12", or "1:02:03" past the hour.
unfoldable pub spell_clock : ℕ → Bytes
spell_clock s =
    let h = s / 3600 in
    let m = s % 3600 / 60 in
    if h == 0
    then show m ++ b':' ∷ show_02 (s % 60)
    else show h ++ b':' ∷ (show_02 m ++ b':' ∷ show_02 (s % 60))

module _ {F : Type 0} where
  unfoldable pub item_of : List (Item F) → ℤ → Option (Item F)
  item_of [] id = none
  item_of (it ∷ its) id = let rest = item_of its id in if it.id == id then some it else rest

  unfoldable pub page_count_of : Option (Item F) → ℤ
  page_count_of none = pos 0
  page_count_of (some it) = elim it.media_info [ none ↦ pos 0 | some mi ↦ mi.page_count ]

module _ (fl : Floats) where
  abbrev pub nought : fl.Float
  nought = fl.lit 0 1

  abbrev pub whole_one : fl.Float
  whole_one = fl.lit 1 1

  -- The fraction past which an item counts as watched.
  abbrev pub watched_at : fl.Float
  watched_at = fl.lit 9 10

  abbrev pub min_resume_seconds : fl.Float
  min_resume_seconds = fl.lit 5 1

  unfoldable pub item_duration : Item fl.Float → fl.Float
  item_duration it = elim it.media_info [ none ↦ nought | some mi ↦ mi.duration_seconds ]

  unfoldable pub duration_of : List (Item fl.Float) → ℤ → fl.Float
  unfolding item_duration
  duration_of [] id = nought
  duration_of (it ∷ its) id =
      let rest = duration_of its id in if it.id == id then item_duration it else rest

  -- Position over duration, within [0,1]; an unknown duration reads 0.
  unfoldable pub fraction : fl.Float → fl.Float → fl.Float
  fraction p dur =
      let f = fl.div p dur in
      if fl.le dur nought
      then nought
      else if fl.lt f nought
      then nought
      else if fl.lt whole_one f
      then whole_one
      else f

  unfoldable pub clamp01 : fl.Float → fl.Float
  clamp01 f = if not (fl.lt nought f) then nought else if fl.lt whole_one f then whole_one else f

  unfoldable pub text_fraction : Option (Item fl.Float) → Option (Locator fl.Float) → fl.Float
  unfolding page_count_of fraction clamp01
  text_fraction it none = nought
  text_fraction it (some loc) =
      let count = page_count_of it in
      if lt_int (pos 0) loc.page && lt_int (pos 0) count
      then fraction (fl.of_int loc.page) (fl.of_int count)
      else clamp01 loc.fraction

  -- Past the end of the clock: 90% of a known duration.
  abbrev pub is_watched : fl.Float → fl.Float → Bool
  is_watched p dur = fl.lt nought dur && fl.le (fl.mul watched_at dur) p

  unfoldable pub finished : Item fl.Float → Position fl.Float → Bool
  unfolding text_fraction item_duration
  finished it p = elim p.locator [
    | some loc ↦ fl.le watched_at (text_fraction (some it) (some loc))
    | none ↦ is_watched p.position_seconds (item_duration it)
  ]

  -- A place that anyone wants back.
  unfoldable pub resumable : Position fl.Float → Bool
  resumable p = elim p.locator [
    | some loc ↦
        fl.lt nought loc.fraction || (lt_int (pos 1) loc.section || lt_int (pos 1) loc.page)
    | none ↦ fl.le min_resume_seconds p.position_seconds
  ]

  unfoldable pub clock : fl.Float → Bytes
  unfolding spell_clock
  clock sec = spell_clock (whole_seconds (fl.to_int sec))

  -- The percentage, rounded to the nearest.
  abbrev percent : fl.Float → Bytes
  percent f =
      show_int (fl.to_int (fl.add (fl.mul (clamp01 f) (fl.lit 100 1)) (fl.lit 1 2))) ++ b'%' ∷ []

  unfoldable pub book_text : Locator fl.Float → ℤ → Bytes
  book_text loc page_count =
      if lt_int (pos 0) loc.page
      then (if lt_int (pos 0) page_count
          then str "p. " ++ (show_int loc.page ++ (str " / " ++ show_int page_count))
          else str "p. " ++ show_int loc.page)
      else if lt_int (pos 0) loc.section
      then str "ch. " ++ (show_int loc.section ++ (middle_dot ++ percent loc.fraction))
      else percent loc.fraction

  -- The loop: `n` is the answer so far, `i` the index.
  chapter_from : ℕ → ℕ → List (Chapter fl.Float) → fl.Float → ℕ
  chapter_from n i [] p = n
  chapter_from n i (c ∷ cs) p =
      chapter_from (if fl.le c.start_seconds p then suc i else n) (suc i) cs p

  unfoldable pub chapter_at : List (Chapter fl.Float) → fl.Float → ℕ
  unfolding chapter_from
  chapter_at [] p = 0
  chapter_at (c ∷ cs) p = chapter_from 1 0 (c ∷ cs) p

  audio_place : MediaInfo fl.Float → fl.Float → fl.Float → Bytes
  audio_place mi p dur =
      let text = clock p in
      let ch = chapter_at mi.chapters p in
      let whole = if fl.lt nought dur then text ++ (str " / " ++ clock dur) else text in
      if ch == 0 then text else str "ch. " ++ (show ch ++ (middle_dot ++ whole))

  unfoldable pub audio_clock : Option (Item fl.Float) → fl.Float → fl.Float → Bytes
  unfolding audio_place clock chapter_at
  audio_clock none p dur = clock p
  audio_clock (some it) p dur = elim it.media_info [
    | none ↦ clock p
    | some mi ↦ audio_place mi p dur
  ]
