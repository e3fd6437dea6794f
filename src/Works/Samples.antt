-- ===== src/Works/Samples.antt =====
-- Items and works that the tests of internal/works are run on.
use flickr.Base.{ℕ, pos, false, Option, none, some, List, [], ◌∷◌, Bytes, str}
use flickr.Model.{Identity, Enrichment}
use flickr.Works.Items.{Item}
use flickr.Works.Work.{Work, new_work}
use flickr.Works.Place.{Position}

-- Identified by a kind, an author, a title and a number.
abbrev pub named : Bytes → Bytes → Bytes → ℕ → Option Identity
named k author title n = some (record {
  kind = k;
  title = title;
  author = author;
  year = pos 0;
  season = pos 1;
  episode = pos n;
  part = pos n;
  track_title = [];
})

abbrev pub file_of : ℕ → Option Identity → Option Enrichment → Item ℕ
file_of id identity enrichment = record {
  id = pos id;
  object_key = [];
  etag = [];
  size = pos 0;
  media_info = none;
  identity = identity;
  identity_overridden = false;
  enrichment = enrichment;
  probe_error = [];
  probe_version = pos 0;
  identity_version = pos 0;
  added_at = pos 0;
  seq = pos 0;
  sidecar_sig = [];
}

abbrev pub item : ℕ → Bytes → Item ℕ
item id k = file_of id (named k [] [] id) none

-- What TMDB says of a film or a show.
abbrev pub known_as : ℕ → Bytes → Option Enrichment
known_as id title = some (record {
  version = pos 1;
  tmdb_id = pos id;
  title = title;
  year = pos 0;
  overview = [];
  has_poster = false;
  genres = [];
  has_backdrop = false;
  runtime_minutes = pos 0;
  certification = [];
  cast = [];
  episode_title = [];
  episode_overview = [];
  has_still = false;
})

-- A film, two shows of one name, and a book.
abbrev pub shelf_of_four : List (Item ℕ)
shelf_of_four =
    file_of 1 (named (str "movie") [] (str "fargo") 0) (known_as 1 (str "fargo"))
    ∷ file_of 2 (named (str "episode") [] (str "fargo s") 1) (known_as 1 (str "fargo"))
    ∷ file_of 3 (named (str "episode") [] (str "fargo") 1) none
    ∷ file_of 4 (named (str "book") (str "a") (str "b") 0) none
    ∷ []

-- The tests' titles are in lower case.
abbrev pub same_case : Bytes → Bytes
same_case s = s

abbrev pub row : ℕ → ℕ → ℕ → Position ℕ
row id seconds at = record {
  item_id = pos id;
  client_id = str "kid";
  position_seconds = seconds;
  locator = none;
  updated_at = at;
  seq = pos at;
}

abbrev pub album_work : Bytes → Bytes → ℕ → Work ℕ
album_work author title year = record (new_work (str "album") []) {
  author = author;
  title = title;
  year = pos year;
}

abbrev pub episodes : Work ℕ
episodes = new_work (str "show") (item 1 (str "episode") ∷ item 2 (str "episode") ∷ [])
