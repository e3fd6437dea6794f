-- ===== src/Works/Tests/Standing.antt =====
-- Standings, resume lists and feeds of internal/works/progress.go and internal/works/feed.go.
use flickr.Base.{
  ℕ, ℤ, pos, ◌+◌, ◌*◌, ◌/◌, ◌≤◌, true, false, Option, some, List, [], ◌∷◌, ◌≡◌, refl, ◌⊎◌, str, All,
  ltb, arith, bytes_beq, ◌==◌, bytes_eq, suc, show, show_02, int_beq,
}
use flickr.Base.Float.{Floats}
use flickr.Base.Whole.{whole}
use flickr.Base.Sort.{count}
use flickr.Model.{Chapter}
use flickr.Works.Work.{Work, new_work}
use flickr.Works.Cursor.{at}
use flickr.Works.Samples.{item, row, episodes}
use flickr.Works.Place.{
  Position, clock, spell_clock, chapter_at, fraction, duration_of, item_duration,
}
use flickr.Works.Place.Clock.{read_sixties, read-clock}
use flickr.Works.Place.Chapters.{LastStarted, NoneStarted, chapter_at-LastStarted}
use flickr.Works.Progress.{
  Progress, have, latest_from, best_of, single_progress, placed_progress, work_progress,
}
use flickr.Works.Progress.Range.{InUnit, work_progress-InUnit}
use flickr.Works.Continue.{continue_list}
use flickr.Works.Continue.Resume.{Unfinished, continue_list-Unfinished}
use flickr.Works.Continue.Unique.{count-continue_list}
use flickr.Works.Feed.{feed}
use flickr.Works.Feed.Changed.{Sends, feed-Sends}

-- Tenths, rounded up.
abbrev tenths : Floats
tenths = record whole { lit = λ p q. p * 10 / q; mul = λ a b. (a * b + 9) / 10 }

past_the_hour : clock whole 3723 ≡ str "1:02:03"
unfolding clock spell_clock show show_02 str
past_the_hour = refl

read-clock_example : read_sixties 0 0 (clock whole 3723) ≡ 3723
read-clock_example = read-clock whole 3723

abbrev two_chapters : List (Chapter ℕ)
two_chapters =
    record { start_seconds = 0; title = [] } ∷ record { start_seconds = 60; title = [] } ∷ []

chapter_at-LastStarted_example :
    ((two_chapters ≡ []) × (chapter_at whole two_chapters 70 ≡ 0))
    ⊎ ((NoneStarted whole 70 two_chapters × (chapter_at whole two_chapters 70 ≡ 1))
        ⊎ ((k : ℕ) × LastStarted whole two_chapters 70 k
            × (chapter_at whole two_chapters 70 ≡ suc k)))
chapter_at-LastStarted_example = chapter_at-LastStarted whole two_chapters 70

abbrev rows : List (Position ℕ)
rows = row 1 100 1 ∷ row 2 60 2 ∷ []

abbrev at_first : ℤ → Option (Position ℕ)
at_first id = some (row 1 100 1)

count-continue_list_example :
    count (λ e. e.work_key == []) (continue_list tenths (episodes ∷ []) rows 20) ≤ 1
count-continue_list_example = count-continue_list tenths (episodes ∷ []) rows 20 []

above_nought : (d : ℕ) → ltb 0 d ≡ true → tenths.le (tenths.mul 9 d) 0 ≡ false
above_nought d h = ground arith

continue_list-Unfinished_example :
    All (Unfinished tenths) (continue_list tenths (episodes ∷ []) rows 20)
continue_list-Unfinished_example =
    continue_list-Unfinished tenths refl above_nought (episodes ∷ []) rows 20

feed-Sends_example :
    Sends rows
      (at 0 1)
      (pos 0)
      (episodes ∷ [])
      (feed whole (episodes ∷ []) rows (some (at 0 1)) (pos 0))
feed-Sends_example = feed-Sends whole (episodes ∷ []) rows (at 0 1) (pos 0)

abbrev film : Work ℕ
film = new_work (str "movie") (item 1 (str "movie") ∷ [])

-- Its length is not known.
abbrev film_standing : Progress ℕ
film_standing = record {
  status = str "active";
  fraction = 0;
  progress_text = str "1:40";
  updated_at = 1;
}

stands : work_progress whole film at_first ≡ some film_standing
unfolding work_progress have placed_progress single_progress best_of latest_from clock spell_clock
    show show_02 str bytes_beq fraction duration_of item_duration int_beq
stands = refl

not_show : (film.kind == str "show") ≡ false
unfolding bytes_beq str
not_show = refl

work_progress-InUnit_example : InUnit whole 0
work_progress-InUnit_example =
    work_progress-InUnit whole irreflexive asymmetric refl film at_first film_standing not_show
      stands
  where
    irreflexive : (a : ℕ) → ltb a a ≡ false
    irreflexive a = ground arith

    asymmetric : (a b : ℕ) → ltb a b ≡ true → ltb b a ≡ false
    asymmetric a b h = ground arith
