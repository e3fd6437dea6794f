-- ===== src/Works/Artists/Shelves.antt =====
-- The shelves of internal/works/artists.go hold every album with an artist once, in its order.
use flickr.Base.{
  not, ◌&&◌, str, bytes_eq, int_eq, ◌==◌, is_empty, suc, Bool, false, List, [], ◌∷◌, ◌++◌, ◌≡◌,
  Bytes, length,
}
use flickr.Base.Sort.{bytes_lt, count}
use flickr.Base.Order.{by_key_then, zero_last}
use flickr.Base.Turn.{Tied, InTurn}
use flickr.Works.Work.{Work}
use flickr.Works.Artists.{Artist, ArtistAlbum}

-- The albums of all shelves, one shelf after the other.
unfoldable pub shelved : List Artist → List ArtistAlbum
shelved [] = []
shelved (a ∷ later) = a.albums ++ shelved later

-- The albums are counted, and the picture is the first one's.
pub data Shelf : Artist → Type 0 where
  shelf :
      (name : Bytes) (first : ArtistAlbum) (rest : List ArtistAlbum)
      → Shelf (record {
        name = name;
        album_count = suc (length rest);
        albums = first ∷ rest;
        representative_item_id = first.representative_item_id;
      })

-- Neighbouring shelves are of different artists.
abbrev pub Apart : (Bytes → Bytes → Bool) → List Artist → Type 0
Apart equal_fold [] = Unit
Apart equal_fold (a ∷ []) = Unit
Apart equal_fold (a ∷ b ∷ later) = (equal_fold a.name b.name ≡ false) × Apart equal_fold (b ∷ later)

module _ {F : Type 0} where
  -- What is shelved: the albums that have an artist, each as often as the library has it.
  abbrev pub HoldsAlbums : List (Work F) → List (Work F) → Type 0
  HoldsAlbums albums ws =
      (p : Work F → Bool)
      → count p albums ≡ count (λ w. p w && (w.kind == str "album" && not (is_empty w.author))) ws

  module _ (lower : Bytes → Bytes) where
    reading : Work F → Work F → Bool
    reading =
        by_key_then (λ w. lower w.author) bytes_lt
          (by_key_then (λ w. w.year) zero_last
            (by_key_then (λ w. lower w.title) bytes_lt (λ x y. bytes_lt x.key y.key)))

    -- By artist, then by year with 0 behind the others, then by title and key.
    abbrev pub ShelfOrder : Work F → Work F → Type 0
    ShelfOrder =
        InTurn (λ w. lower w.author) bytes_lt
          (InTurn (λ w. w.year) zero_last
            (InTurn (λ w. lower w.title) bytes_lt (InTurn (λ w. w.key) bytes_lt Tied)))
