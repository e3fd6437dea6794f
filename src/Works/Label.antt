-- ===== src/Works/Label.antt =====
-- ItemLabel and ItemTitle of internal/works/progress.go: what a screen calls one file of a work.
use flickr.Base.{
  pos, int_eq, lt_int, not, ◌&&◌, none, some, List, [], ◌∷◌, ◌++◌, Bytes, str, bytes_eq, nat_eq,
  ◌==◌, if◌then◌else◌, is_empty, show_int, map, length, ◌-◌, take, join, ◌||◌,
}
use flickr.Base.Trim.{trim_space}
use flickr.Base.FilePath.{base, ext, fields}
use flickr.Model.{Identity, Chapter}
use flickr.Works.Items.{Item}
use flickr.Works.Place.{middle_dot}
use flickr.Works.Progress.{episode_code}

-- strings.NewReplacer("_", " ", ".", " ")
abbrev spaced : Bytes → Bytes
spaced = map (λ c. if c == b'_' || c == b'.' then b' ' else c)

-- The base name without its extension.
stem : Bytes → Bytes
stem name =
    let e = ext name in
    if not (is_empty e) && not (e == name) then take (length name - length e) name else name

unfoldable pub stem_title : Bytes → Bytes
unfolding stem
stem_title key =
    let name = join (b' ' ∷ []) (fields (spaced (stem (base key)))) in
    if is_empty name then base key else name

track_label : Identity → Bytes
track_label id =
    let code = str "Track " ++ show_int id.part in
    if is_empty id.track_title then code else code ++ (middle_dot ++ id.track_title)

module _ {F : Type 0} where
  sole_title : List (Chapter F) → Bytes
  sole_title [] = []
  sole_title (c ∷ []) = trim_space c.title
  sole_title (c ∷ d ∷ cs) = []

  unfoldable pub sole_chapter_title : Item F → Bytes
  unfolding sole_title
  sole_chapter_title it = elim it.media_info [ none ↦ [] | some mi ↦ sole_title mi.chapters ]

  abbrev enriched_title : Item F → Bytes
  enriched_title it = elim it.enrichment [ none ↦ [] | some e ↦ e.title ]

  identified_title : Item F → Bytes
  identified_title it = elim it.identity [ none ↦ [] | some id ↦ id.title ]

  unfoldable pub work_title : Item F → Bytes
  unfolding identified_title
  work_title it =
      if not (is_empty (enriched_title it))
      then enriched_title it
      else if not (is_empty (identified_title it))
      then identified_title it
      else stem_title it.object_key

  unfoldable pub episode_title : Item F → Bytes
  episode_title it = elim it.enrichment [ none ↦ [] | some e ↦ e.episode_title ]

  part_title : Item F → Identity → Bytes
  part_title it id =
      if lt_int (pos 0) id.part
      then (if is_empty (sole_chapter_title it)
          then str "Part " ++ show_int id.part
          else sole_chapter_title it)
      else work_title it

  track_title_of : Item F → Identity → Bytes
  track_title_of it id =
      if not (is_empty id.track_title)
      then id.track_title
      else if lt_int (pos 0) id.part
      then str "Track " ++ show_int id.part
      else work_title it

  named_title : Item F → Identity → Bytes
  named_title it id =
      if id.kind == str "episode"
      then (if not (is_empty (episode_title it))
          then episode_title it
          else if lt_int (pos 0) id.episode
          then str "Episode " ++ show_int id.episode
          else stem_title it.object_key)
      else if id.kind == str "audiobook_part"
      then part_title it id
      else if id.kind == str "track"
      then track_title_of it id
      else if id.kind == str "movie" || id.kind == str "book"
      then work_title it
      else stem_title it.object_key

  unfoldable pub item_title : Item F → Bytes
  unfolding named_title part_title track_title_of
  item_title it = elim it.identity [ none ↦ stem_title it.object_key | some id ↦ named_title it id ]

  episode_label : Item F → Identity → Bytes
  episode_label it id =
      let code = episode_code (id.season, id.episode) in
      if is_empty (episode_title it) then code else code ++ (middle_dot ++ episode_title it)

  named_label : Item F → Identity → Bytes
  named_label it id =
      if id.kind == str "episode" && lt_int (pos 0) id.episode
      then episode_label it id
      else if id.kind == str "audiobook_part" && lt_int (pos 0) id.part
      then str "Part " ++ show_int id.part
      else if id.kind == str "track" && lt_int (pos 0) id.part
      then track_label id
      else item_title it

  unfoldable pub item_label : Item F → Bytes
  unfolding named_label episode_label track_label
  item_label it = elim it.identity [ none ↦ item_title it | some id ↦ named_label it id ]
