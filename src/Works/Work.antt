-- ===== src/Works/Work.antt =====
-- A work of internal/works/works.go, and finish, which derives all that its members say.
pub mod Finished
pub mod Ordered
use flickr.Base.{
  ℕ, ◌-◌, ◌+◌, ℤ, pos, int_eq, int_beq, lt_int, Bool, true, false, not, ◌&&◌, ◌||◌, Option, none,
  some, List, [], ◌∷◌, ◌++◌, Bytes, str, bytes_eq, ◌==◌, nat_eq, bool_eq, if◌then◌else◌, is_empty,
  show_int, leb, length, is_digit,
}
use flickr.Base.Sort.{bytes_lt, count, sort_by}
use flickr.Base.FilePath.{base}
use flickr.Model.{Enrichment, Identity, medium_video, medium_audio, medium_text, medium_or_video}
use flickr.Works.Items.{Item, kind, is_extra}

pub record Work (F : Type 0) : Type 0 where
  pub key : Bytes
  pub kind : Bytes
  pub medium : Bytes
  pub title : Bytes
  pub author : Bytes
  pub year : ℤ
  pub genres : List Bytes
  pub overview : Bytes
  pub episode_count : ℕ
  pub extra_count : ℕ
  pub part_count : ℕ
  pub track_count : ℕ
  pub item_count : ℕ
  pub representative_item_id : ℤ
  pub items : List (Item F)

-- A work under construction: its kind and its members.
abbrev pub new_work : {F : Type 0} → Bytes → List (Item F) → Work F
new_work kind items = record {
  key = [];
  kind = kind;
  medium = [];
  title = [];
  author = [];
  year = pos 0;
  genres = [];
  overview = [];
  episode_count = 0;
  extra_count = 0;
  part_count = 0;
  track_count = 0;
  item_count = 0;
  representative_item_id = pos 0;
  items = items;
}

is_alnum : ℕ → Bool
is_alnum c = (leb b'a' c && leb c b'z') || is_digit c

-- The loop: `started` is b.Len() > 0.
slug_from : Bool → Bool → Bytes → Bytes
slug_from started hyphen [] = []
slug_from started hyphen (c ∷ s) =
    let letter = c ∷ slug_from true false s in
    let dash = b'-' ∷ slug_from started true s in
    let skip = slug_from started hyphen s in
    if is_alnum c then letter else if not hyphen && started then dash else skip

-- strings.TrimSuffix(s, "-")
trim_dash : Bytes → Bytes
trim_dash [] = []
trim_dash (c ∷ []) = if c == b'-' then [] else c ∷ []
trim_dash (c ∷ d ∷ s) = c ∷ trim_dash (d ∷ s)

-- Title, author and year as far as they are known.
pub record Named : Type 0 where
  pub title : Bytes
  pub author : Bytes
  pub year : ℤ

abbrev or_bytes : Bytes → Bytes → Bytes
or_bytes v d = if is_empty v then d else v

abbrev or_int : ℤ → ℤ → ℤ
or_int v d = if v == pos 0 then d else v

-- A member's identity fills in what is not known yet.
fill : Named → Identity → Named
fill n id = record {
  title = or_bytes n.title id.title;
  author = or_bytes n.author id.author;
  year = or_int n.year id.year;
}

is_complete : Named → Bool
is_complete n = not (is_empty n.title) && not (is_empty n.author) && not (n.year == pos 0)

module _ {F : Type 0} where
  -- A file takes its item's own medium.
  of_first : List (Item F) → Bytes
  of_first [] = medium_video
  of_first (it ∷ its) = medium_or_video it.media_info

  medium_for : Bytes → List (Item F) → Bytes
  medium_for kind items =
      if kind == str "audiobook" || kind == str "album"
      then medium_audio
      else if kind == str "book"
      then medium_text
      else if kind == str "file"
      then of_first items
      else medium_video

  unfoldable pub season_episode : Item F → ℤ × ℤ
  season_episode it = elim it.identity [ none ↦ (pos 0, pos 0) | some id ↦ (id.season, id.episode) ]

  unfoldable pub ordinal : Item F → ℤ × ℤ
  unfolding season_episode
  ordinal it =
      if kind it == str "audiobook_part" || kind it == str "track"
      then elim it.identity [ none ↦ (pos 0, pos 0) | some id ↦ (pos 0, id.part) ]
      else season_episode it

  -- The order of a work's members: bonus material last, the unnumbered behind the numbered.
  unfoldable pub member_less : Item F → Item F → Bool
  member_less a b =
      if not (is_extra a == is_extra b)
      then is_extra b
      else if not ((ordinal a).0 == (ordinal b).0)
      then lt_int (ordinal a).0 (ordinal b).0
      else if not ((ordinal a).1 == (ordinal b).1)
      then (if (ordinal a).1 == pos 0 || (ordinal b).1 == pos 0
          then (ordinal b).1 == pos 0
          else lt_int (ordinal a).1 (ordinal b).1)
      else if not (a.object_key == b.object_key)
      then bytes_lt a.object_key b.object_key
      else lt_int a.id b.id

  name_from : Named → List (Item F) → Named
  name_from n [] = n
  name_from n (it ∷ its) = elim it.identity [
    | none ↦ name_from n its
    | some id ↦
        let n' = fill n id in
        let rest = name_from (fill n id) its in if is_complete n' then n' else rest
  ]

  -- The first member that TMDB knows.
  unfoldable pub first_enriched : List (Item F) → Option Enrichment
  first_enriched [] = none
  first_enriched (it ∷ its) =
      let rest = first_enriched its in
      elim it.enrichment [ none ↦ rest | some e ↦ if e.tmdb_id == pos 0 then rest else some e ]

  -- A work has a member; the last resort for a title is its file's name.
  head_key : List (Item F) → Bytes
  head_key [] = []
  head_key (it ∷ its) = it.object_key

  head_id : List (Item F) → ℤ
  head_id [] = pos 0
  head_id (it ∷ its) = it.id

  unfoldable pub has_poster : Item F → Bool
  has_poster it = elim it.enrichment [ none ↦ false | some e ↦ e.has_poster ]

  unfoldable pub has_member : ℤ → List (Item F) → Bool
  has_member id [] = false
  has_member id (it ∷ its) = it.id == id || has_member id its

  representative : ℤ → List (Item F) → ℤ
  representative d [] = d
  representative d (it ∷ its) =
      let rest = representative d its in if has_poster it then it.id else rest

unfoldable pub slug : (Bytes → Bytes) → Bytes → Bytes
unfolding is_alnum slug_from trim_dash
slug lower s = trim_dash (slug_from false false (lower s))

module _ {F : Type 0} (lower : Bytes → Bytes) where
  -- "<kind>:<lower-title-hyphenated>[-<year>]", the author in front of the title.
  unfoldable pub slug_key : Work F → Bytes
  slug_key w =
      let name = if is_empty w.author then w.title else w.author ++ b' ' ∷ w.title in
      let s = slug lower name in
      w.kind ++ b':' ∷ (if w.year == pos 0 then s else s ++ b'-' ∷ show_int w.year)

  sorted : Work F → Work F
  sorted w = record w { items = sort_by member_less w.items }

  counted : Work F → Work F
  counted w = record w {
    item_count = length w.items;
    episode_count = count (λ it. kind it == str "episode") w.items;
    extra_count = count (λ it. kind it == str "extra") w.items;
    part_count = count (λ it. kind it == str "audiobook_part") w.items;
    track_count = count (λ it. kind it == str "track") w.items;
    medium = medium_for w.kind w.items;
  }

  identified : Work F → Work F
  identified w =
      let n = name_from (record { title = w.title; author = w.author; year = w.year }) w.items in
      record w {
        title = or_bytes n.title (base (head_key w.items));
        author = n.author;
        year = n.year;
      }

  -- TMDB's title, year, overview and genres win over the identity's.
  enriched : Option Enrichment → Work F → Work F
  enriched none w = w
  enriched (some e) w = record w {
    title = or_bytes e.title w.title;
    year = or_int e.year w.year;
    overview = e.overview;
    genres = e.genres;
  }

  tmdb_key : Option Enrichment → Work F → Bytes
  tmdb_key none w = slug_key w
  tmdb_key (some e) w = str "tmdb:" ++ show_int e.tmdb_id

  -- Files arrive keyed.
  keyed : Option Enrichment → Work F → Work F
  keyed e w = record w { key = or_bytes w.key (tmdb_key e w) }

  represented : Work F → Work F
  represented w = record w { representative_item_id = representative (head_id w.items) w.items }

  unfoldable pub finish : Work F → Work F
  unfolding sorted counted identified enriched keyed represented name_from head_key medium_for
      representative head_id tmdb_key of_first fill is_complete
  finish w =
      let s = identified (counted (sorted w)) in
      let e = first_enriched s.items in represented (keyed e (enriched e s))
