-- ===== src/Works/Tests/Library.antt =====
-- Libraries that internal/works/works.go groups and internal/works/artists.go shelves.
use flickr.Base.{
  ℕ, List, [], ◌∷◌, ◌≡◌, refl, map, All, bytes_beq, str, show, show_int, int_beq, lt_int, le_int,
}
use flickr.Base.Turn.{AllInOrder}
use flickr.Base.Sort.{SameMembers, sort_by, insert_by, bytes_lt}
use flickr.Base.FilePath.{base}
use flickr.Works.Items.{kind, is_extra}
use flickr.Works.Work.{
  Work, finish, slug, slug_key, first_enriched, has_poster, member_less, ordinal, season_episode,
}
use flickr.Works.Samples.{shelf_of_four, same_case, album_work}
use flickr.Works.Build.{
  find, modify, join_work, title_of, values, add_item, add_items, attach, attach_all, group, push,
  merge, fallback, dedupe_key, dedupe_all, dedupe_keys, work_less, build,
}
use flickr.Works.Build.Gather.{members}
use flickr.Works.Build.Partition.{build-SameMembers}
use flickr.Works.Build.Ordered.{WellFormed, WorkOrder, build-WellFormed}

build-SameMembers_example : SameMembers (members (build same_case shelf_of_four)) shelf_of_four
build-SameMembers_example = build-SameMembers same_case shelf_of_four

build-WellFormed_example :
    All (WellFormed same_case) (build same_case shelf_of_four)
    × AllInOrder (WorkOrder same_case) (build same_case shelf_of_four)
build-WellFormed_example = build-WellFormed same_case shelf_of_four

-- The film's key is the show's too, although dedupeKeys set them apart at first.
keys_collide :
    map (λ w. w.key) (build same_case shelf_of_four)
    ≡ str "book:a-b" ∷ str "tmdb:1" ∷ str "tmdb:1" ∷ []
unfolding build group add_items add_item attach_all attach join_work find modify title_of values
    dedupe_keys dedupe_all dedupe_key push merge fallback work_less finish slug slug_key
    first_enriched has_poster member_less ordinal season_episode kind is_extra sort_by insert_by
    bytes_lt bytes_beq str show show_int int_beq lt_int le_int base
keys_collide = refl

abbrev three_albums : List (Work ℕ)
three_albums =
    album_work (str "b") (str "late") 0
    ∷ album_work (str "a") (str "second") 1990
    ∷ album_work (str "b") (str "early") 1980
    ∷ []
