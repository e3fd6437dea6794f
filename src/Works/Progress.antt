-- ===== src/Works/Progress.antt =====
-- WorkProgress of internal/works/progress.go: one audience's standing in one work, from its positions.
pub mod Range
use flickr.Base.{
  ℕ, zero, suc, ◌+◌, ℤ, pos, int_eq, lt_int, Bool, true, false, not, ◌&&◌, ◌||◌, Option, none, some,
  List, [], ◌∷◌, ◌++◌, Bytes, str, bytes_eq, nat_eq, ◌==◌, if◌then◌else◌, show, show_02_int, ltb,
  is_some, length,
}
use flickr.Base.Float.{Floats}
use flickr.Model.{medium_audio}
use flickr.Works.Items.{Item, kind, is_extra}
use flickr.Works.Work.{Work, season_episode}
use flickr.Works.Place.{
  Position, middle_dot, nought, watched_at, item_of, page_count_of, item_duration, duration_of,
  fraction, text_fraction, is_watched, clock, book_text, audio_clock,
}

pub record Progress (F : Type 0) : Type 0 where
  pub status : Bytes
  pub fraction : F
  pub progress_text : Bytes
  pub updated_at : F

unfoldable pub episode_code : ℤ × ℤ → Bytes
episode_code (s, e) = b'S' ∷ (show_02_int s ++ b'E' ∷ show_02_int e)

module _ (fl : Floats) where
  abbrev pub Positions : Type 0
  Positions = ℤ → Option (Position fl.Float)

  unfoldable pub have : List (Item fl.Float) → Positions → List (Position fl.Float)
  have [] ps = []
  have (it ∷ its) ps = let rest = have its ps in elim (ps it.id) [ none ↦ rest | some p ↦ p ∷ rest ]

  -- The latest moment of some positions; `t` so far.
  unfoldable pub latest_from : fl.Float → List (Position fl.Float) → fl.Float
  latest_from t [] = t
  latest_from t (p ∷ ps) = latest_from (if fl.lt t p.updated_at then p.updated_at else t) ps

  -- The most recent position, the first of those that tie.
  unfoldable pub best_of : Position fl.Float → List (Position fl.Float) → Position fl.Float
  best_of best [] = best
  best_of best (p ∷ ps) = best_of (if fl.lt best.updated_at p.updated_at then p else best) ps

  abbrev pub status_at : Bool → Bytes
  status_at done = if done then str "finished" else str "active"

  unfoldable pub book_progress :
      Work fl.Float → Position fl.Float → List (Position fl.Float) → fl.Float → Progress fl.Float
  book_progress w first rest updated =
      let best = best_of first rest in
      let it = item_of w.items best.item_id in
      let frac = text_fraction fl it best.locator in
      elim best.locator [
        | none ↦ record {
          status = str "active";
          fraction = nought fl;
          progress_text = [];
          updated_at = updated;
        }
        | some loc ↦ record {
          status = status_at (fl.le (watched_at fl) frac);
          fraction = frac;
          progress_text = book_text fl loc (page_count_of it);
          updated_at = updated;
        }
      ]

  -- The members that are no bonus material.
  unfoldable pub parts_of : List (Item fl.Float) → List (Item fl.Float)
  parts_of [] = []
  parts_of (it ∷ its) = let rest = parts_of its in if is_extra it then rest else it ∷ rest

  -- The last part with a position, with its place in the list: the loop over it, `i` the index.
  unfoldable pub furthest_from :
      Option (ℕ × Item fl.Float × Position fl.Float)
      → ℕ
      → List (Item fl.Float)
      → Positions
      → Option (ℕ × Item fl.Float × Position fl.Float)
  furthest_from f i [] ps = f
  furthest_from f i (it ∷ its) ps =
      furthest_from (elim (ps it.id) [ none ↦ f | some p ↦ some (i, it, p) ]) (suc i) its ps

  -- The seconds of all parts, and of those before the furthest, which count as heard in full.
  unfoldable pub sum_parts :
      ℕ → ℕ → List (Item fl.Float) → fl.Float × fl.Float → fl.Float × fl.Float
  sum_parts i furthest [] (total, heard) = (total, heard)
  sum_parts i furthest (it ∷ its) (total, heard) =
      let dur = item_duration fl it in
      sum_parts (suc i) furthest its
        (fl.add total dur, if ltb i furthest then fl.add heard dur else heard)

  parts_text : Work fl.Float → ℕ → ℕ → fl.Float → Bytes
  parts_text w i n p =
      (if w.kind == str "album" then str "track" else str "part")
      ++ b' ' ∷ (show (suc i) ++ (str " of " ++ (show n ++ (middle_dot ++ clock fl p))))

  unfoldable pub parts_progress : Work fl.Float → Positions → fl.Float → Option (Progress fl.Float)
  unfolding parts_text
  parts_progress w ps updated =
      let parts = parts_of w.items in
      elim (furthest_from none 0 parts ps) [
        | none ↦ none
        | some (i, it, p) ↦
            let (total, heard) = sum_parts 0 i parts (nought fl, nought fl) in
            let frac =
              fraction fl (fl.add heard (fl.least p.position_seconds (item_duration fl it)))
                total in
            some (record {
              status = status_at (fl.le (watched_at fl) frac);
              fraction = frac;
              progress_text = parts_text w i (length parts) p.position_seconds;
              updated_at = updated;
            })
      ]

  -- A film, a stray file, an audiobook in one file: its most recent position.
  unfoldable pub single_progress :
      Work fl.Float → Position fl.Float → List (Position fl.Float) → fl.Float → Progress fl.Float
  single_progress w first rest updated =
      let best = best_of first rest in
      let dur = duration_of fl w.items best.item_id in
      record {
        status = status_at (is_watched fl best.position_seconds dur);
        fraction = fraction fl best.position_seconds dur;
        progress_text =
            if w.medium == medium_audio
            then audio_clock fl (item_of w.items best.item_id) best.position_seconds dur
            else clock fl best.position_seconds;
        updated_at = updated;
      }

  -- How many of the parts are watched.
  unfoldable pub watched_count : List (Item fl.Float) → Positions → ℕ
  watched_count [] ps = 0
  watched_count (it ∷ its) ps =
      let rest = watched_count its ps in
      elim (ps it.id) [
        | none ↦ rest
        | some p ↦ if is_watched fl p.position_seconds (item_duration fl it) then suc rest else rest
      ]

  -- Positions on bonus material only: no place in the show.
  unfoldable pub extras_progress :
      Work fl.Float → Position fl.Float → List (Position fl.Float) → fl.Float → Progress fl.Float
  extras_progress w first rest updated =
      let best = best_of first rest in
      record {
        status = str "active";
        fraction = fraction fl best.position_seconds (duration_of fl w.items best.item_id);
        progress_text = clock fl best.position_seconds;
        updated_at = updated;
      }

  -- The episodes watched, and the furthest one's share, over the episodes there are.
  show_fraction : Work fl.Float → ℕ → Item fl.Float → Position fl.Float → fl.Float
  show_fraction w watched it p =
      let dur = item_duration fl it in
      let count = fl.of_int (pos w.episode_count) in
      let whole = fl.div (fl.of_int (pos watched)) count in
      if is_watched fl p.position_seconds dur
      then whole
      else fl.add whole (fl.div (fraction fl p.position_seconds dur) count)

  show_text : Item fl.Float → Position fl.Float → Bytes
  show_text it p =
      if lt_int (pos 0) (season_episode it).1
      then episode_code (season_episode it) ++ (middle_dot ++ clock fl p.position_seconds)
      else clock fl p.position_seconds

  unfoldable pub show_progress :
      Work fl.Float
      → Positions
      → Position fl.Float
      → List (Position fl.Float)
      → fl.Float
      → Progress fl.Float
  unfolding show_fraction show_text
  show_progress w ps first rest updated =
      let parts = parts_of w.items in
      let watched = watched_count parts ps in
      elim (furthest_from none 0 parts ps) [
        | none ↦ extras_progress w first rest updated
        | some (i, it, p) ↦
            if w.episode_count == 0 then extras_progress w first rest updated else record {
              status = status_at (fl.le (watched_at fl) (show_fraction w watched it p));
              fraction = show_fraction w watched it p;
              progress_text = show_text it p;
              updated_at = updated;
            }
      ]

  abbrev is_parted : Work fl.Float → Bool
  is_parted w =
      (w.kind == str "audiobook" || w.kind == str "album") && ltb 1 (w.part_count + w.track_count)

  clocked_progress :
      Work fl.Float
      → Positions
      → Position fl.Float
      → List (Position fl.Float)
      → fl.Float
      → Progress fl.Float
  clocked_progress w ps first rest updated =
      if w.kind == str "show"
      then show_progress w ps first rest updated
      else single_progress w first rest updated

  -- A work in parts, by its furthest part where one has a position.
  parted_progress :
      Work fl.Float
      → Positions
      → Position fl.Float
      → List (Position fl.Float)
      → fl.Float
      → Progress fl.Float
  parted_progress w ps first rest updated = elim (parts_progress w ps updated) [
    | some pr ↦ pr
    | none ↦ clocked_progress w ps first rest updated
  ]

  -- What is said of a work with a position.
  unfoldable pub placed_progress :
      Work fl.Float
      → Positions
      → Position fl.Float
      → List (Position fl.Float)
      → fl.Float
      → Progress fl.Float
  unfolding clocked_progress parted_progress
  placed_progress w ps first rest updated =
      if w.kind == str "book"
      then book_progress w first rest updated
      else if is_parted w
      then parted_progress w ps first rest updated
      else clocked_progress w ps first rest updated

  -- None without a position on any member.
  reported : Work fl.Float → Positions → List (Position fl.Float) → Option (Progress fl.Float)
  reported w ps [] = none
  reported w ps (first ∷ rest) =
      some (placed_progress w ps first rest (latest_from (nought fl) (first ∷ rest)))

  unfoldable pub work_progress : Work fl.Float → Positions → Option (Progress fl.Float)
  unfolding reported
  work_progress w ps = reported w ps (have w.items ps)
