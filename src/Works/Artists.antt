-- ===== src/Works/Artists.antt =====
-- internal/works/artists.go: the albums of a library on their artists' shelves. strings.ToLower is
-- `lower`, and strings.EqualFold is `equal_fold`.
pub mod Shelves
use flickr.Base.{
  ℕ, zero, suc, ◌+◌, ℤ, pos, int_eq, lt_int, Bool, true, false, not, ◌&&◌, ◌||◌, List, [], ◌∷◌,
  ◌++◌, ◌≡◌, refl, ap, sym, ◌∙◌, Bytes, str, bytes_eq, ◌==◌, if◌then◌else◌, is_empty, length,
  length-append, map, All, All-append, arith, if_split, if_cases,
}
use flickr.Base.Sort.{bytes_lt, sort_by}
use flickr.Works.Work.{Work}

pub record ArtistAlbum : Type 0 where
  pub key : Bytes
  pub title : Bytes
  pub year : ℤ
  pub track_count : ℕ
  pub representative_item_id : ℤ

pub record Artist : Type 0 where
  pub name : Bytes
  pub album_count : ℕ
  pub albums : List ArtistAlbum
  pub representative_item_id : ℤ

module _ {F : Type 0} where
  -- An album with an artist; a loose track has no shelf.
  abbrev pub is_shelved : Work F → Bool
  is_shelved w = w.kind == str "album" && not (is_empty w.author)

  unfoldable pub albums_of : List (Work F) → List (Work F)
  albums_of [] = []
  albums_of (w ∷ ws) = let rest = albums_of ws in if is_shelved w then w ∷ rest else rest

  unfoldable pub album_of : Work F → ArtistAlbum
  album_of w = record {
    key = w.key;
    title = w.title;
    year = w.year;
    track_count = w.track_count;
    representative_item_id = w.representative_item_id;
  }

  unfoldable pub new_artist : Work F → Artist
  new_artist w = record {
    name = w.author;
    album_count = 0;
    albums = [];
    representative_item_id = w.representative_item_id;
  }

  unfoldable pub add_album : Work F → Artist → Artist
  unfolding album_of
  add_album w a =
      let albums = a.albums ++ album_of w ∷ [] in
      record a { albums = albums; album_count = length albums }

  module _ (lower : Bytes → Bytes) where
    -- By artist, then by year, the undated last, then by title and key.
    unfoldable pub album_less : Work F → Work F → Bool
    album_less x y =
        if not (lower x.author == lower y.author)
        then bytes_lt (lower x.author) (lower y.author)
        else if not (x.year == y.year)
        then (if x.year == pos 0 || y.year == pos 0 then y.year == pos 0 else lt_int x.year y.year)
        else if not (lower x.title == lower y.title)
        then bytes_lt (lower x.title) (lower y.title)
        else bytes_lt x.key y.key

  module _ (equal_fold : Bytes → Bytes → Bool) where
    -- One round of the loop: the album joins the last artist where the names match, or starts the
    -- next.
    unfoldable pub shelve : Work F → List Artist → List Artist
    unfolding new_artist add_album
    shelve w [] = add_album w (new_artist w) ∷ []
    shelve w (a ∷ []) =
        if equal_fold a.name w.author
        then add_album w a ∷ []
        else a ∷ add_album w (new_artist w) ∷ []
    shelve w (a ∷ b ∷ later) = a ∷ shelve w (b ∷ later)

    unfoldable pub shelve_all : List (Work F) → List Artist → List Artist
    shelve_all [] out = out
    shelve_all (w ∷ ws) out = shelve_all ws (shelve w out)

  unfoldable pub artists : (Bytes → Bytes) → (Bytes → Bytes → Bool) → List (Work F) → List Artist
  artists lower equal_fold ws = shelve_all equal_fold (sort_by (album_less lower) (albums_of ws)) []
