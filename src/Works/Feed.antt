-- ===== src/Works/Feed.antt =====
-- Feed of internal/works/feed.go: the works that changed since a cursor, with everyone's standing in
-- them.
pub mod Changed
use flickr.Base.{
  ℕ, ℤ, int_eq, lt_int, Bool, true, false, not, ◌&&◌, ◌||◌, Option, none, some, List, [], ◌∷◌,
  Bytes, bytes_eq, ◌==◌, if◌then◌else◌, contains,
}
use flickr.Base.Float.{Floats}
use flickr.Base.Sort.{bytes_lt, sort_by}
use flickr.Works.Items.{Item}
use flickr.Works.Work.{Work}
use flickr.Works.Place.{Position}
use flickr.Works.Progress.{Progress, Positions, work_progress}
use flickr.Works.Cursor.{Cursor}

pub record Audience (F : Type 0) : Type 0 where
  pub name : Bytes
  pub progress : Progress F

pub record FeedWork (F : Type 0) : Type 0 where
  pub work : Work F
  pub audiences : List (Audience F)

-- Without a cursor, and after a deletion that it has not seen, everything is new.
unfoldable pub resync : Option Cursor → ℤ → Bool
resync none deletion_seq = true
resync (some c) deletion_seq = lt_int c.lib deletion_seq

module _ {F : Type 0} where
  -- byItem[id]: the rows of an item, in their order.
  unfoldable pub rows_of : List (Position F) → ℤ → List (Position F)
  rows_of [] id = []
  rows_of (p ∷ ps) id = let rest = rows_of ps id in if p.item_id == id then p ∷ rest else rest

  -- The loop over an item's rows: whether one is newer than the cursor's state.
  newer_row : ℤ → List (Position F) → Bool
  newer_row state [] = false
  newer_row state (p ∷ ps) = lt_int state p.seq || newer_row state ps

  newer_member : Cursor → List (Position F) → List (Item F) → Bool
  newer_member c ps [] = false
  newer_member c ps (it ∷ its) =
      lt_int c.lib it.seq || (newer_row c.state (rows_of ps it.id) || newer_member c ps its)

  unfoldable pub changed : List (Position F) → Option Cursor → ℤ → Work F → Bool
  unfolding resync newer_member newer_row
  changed ps none deletion_seq w = resync none deletion_seq
  changed ps (some c) deletion_seq w = resync (some c) deletion_seq || newer_member c ps w.items

  -- clients[p.ClientID] = true: the names, each once.
  note_client : List (Position F) → List Bytes → List Bytes
  note_client [] names = names
  note_client (p ∷ ps) names =
      let rest = note_client ps names in
      if contains rest p.client_id then rest else p.client_id ∷ rest

  unfoldable pub clients_of : List (Position F) → List (Item F) → List Bytes
  unfolding note_client
  clients_of ps [] = []
  clients_of ps (it ∷ its) = note_client (rows_of ps it.id) (clients_of ps its)

  -- The last row of a client among some.
  last_row : Bytes → List (Position F) → Option (Position F)
  last_row name [] = none
  last_row name (p ∷ ps) = elim (last_row name ps) [
    | some later ↦ some later
    | none ↦ if p.client_id == name then some p else none
  ]

  -- perItem; WorkProgress asks it for members only.
  unfoldable pub per_item : List (Position F) → Bytes → ℤ → Option (Position F)
  unfolding last_row
  per_item ps name id = last_row name (rows_of ps id)

module _ (fl : Floats) where
  unfoldable pub audiences_of :
      List (Position fl.Float) → Work fl.Float → List Bytes → List (Audience fl.Float)
  audiences_of ps w [] = []
  audiences_of ps w (name ∷ names) =
      let rest = audiences_of ps w names in
      elim (work_progress fl w (per_item ps name)) [
        | none ↦ rest
        | some pr ↦ record { name = name; progress = pr } ∷ rest
      ]

  unfoldable pub feed_work : List (Position fl.Float) → Work fl.Float → FeedWork fl.Float
  feed_work ps w = record {
    work = w;
    audiences = audiences_of ps w (sort_by bytes_lt (clients_of ps w.items));
  }

  unfoldable pub feed :
      List (Work fl.Float) → List (Position fl.Float) → Option Cursor → ℤ → List (FeedWork fl.Float)
  feed [] ps since deletion_seq = []
  feed (w ∷ ws) ps since deletion_seq =
      let rest = feed ws ps since deletion_seq in
      if changed ps since deletion_seq w then feed_work ps w ∷ rest else rest
