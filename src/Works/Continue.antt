-- ===== src/Works/Continue.antt =====
-- ContinueList of internal/works/progress.go: what one profile goes on with.
pub mod Resume
pub mod Unique
use flickr.Base.{
  ℕ, zero, suc, ℤ, int_eq, lt_int, Bool, true, false, not, ◌&&◌, ◌||◌, Option, none, some, List, [],
  ◌∷◌, Bytes, str, bytes_eq, ◌==◌, if◌then◌else◌, take,
}
use flickr.Base.Float.{Floats}
use flickr.Base.Sort.{sort_by}
use flickr.Works.Items.{Item}
use flickr.Works.Neighbours.{next_member}
use flickr.Works.Work.{Work}
use flickr.Works.Build.{Keyed, find, by_item}
use flickr.Works.Label.{item_label}
use flickr.Works.Place.{
  Position, nought, watched_at, item_duration, text_fraction, is_watched, resumable,
}

pub record ContinueEntry (F : Type 0) : Type 0 where
  pub item_id : ℤ
  pub work_key : Bytes
  pub title : Bytes
  pub label : Bytes
  pub position_seconds : F
  pub duration_seconds : F
  pub fraction : F
  pub updated_at : F

module _ {V : Type 0} where
  -- latest[k] = v
  unfoldable pub put : Bytes → V → Keyed V → Keyed V
  put k v [] = (k, v) ∷ []
  put k v ((j, u) ∷ vs) = let rest = put k v vs in if j == k then (k, v) ∷ vs else (j, u) ∷ rest

module _ {F : Type 0} where
  -- multiPart
  unfoldable pub multi_part : Work F → Bool
  multi_part w = w.kind == str "show" || (w.kind == str "audiobook" || w.kind == str "album")

  last_with : ℤ → List (Item F) → Option (Item F)
  last_with id [] = none
  last_with id (it ∷ its) = elim (last_with id its) [
    | some later ↦ some later
    | none ↦ if it.id == id then some it else none
  ]

  -- items[id]: the last member of that id, over all works.
  unfoldable pub item_at : List (Work F) → ℤ → Option (Item F)
  unfolding last_with
  item_at [] id = none
  item_at (w ∷ ws) id = elim (item_at ws id) [
    | some later ↦ some later
    | none ↦ last_with id w.items
  ]

module _ (fl : Floats) where
  -- The most recent positions: per work, by its key, and per item.
  pub record Latest : Type 0 where
    pub of_work : Keyed (Position fl.Float)
    pub of_item : ℤ → Option (Position fl.Float)

  -- byItem[p.ItemID] = p, unless it has one as recent.
  put_item : Position fl.Float → (ℤ → Option (Position fl.Float)) → ℤ → Option (Position fl.Float)
  put_item p m id =
      if id == p.item_id
      then elim (m p.item_id) [
        | none ↦ some p
        | some prev ↦ if fl.lt prev.updated_at p.updated_at then some p else some prev
      ]
      else m id

  put_work : Bytes → Position fl.Float → Keyed (Position fl.Float) → Keyed (Position fl.Float)
  put_work k p m = elim (find k m) [
    | none ↦ put k p m
    | some prev ↦ if fl.le p.updated_at prev.updated_at then m else put k p m
  ]

  -- One round over the positions: noise and rows of deleted items are passed over.
  unfoldable pub note_position : List (Work fl.Float) → Position fl.Float → Latest → Latest
  unfolding put_item put_work
  note_position ws p l = if not (resumable fl p) then l else elim (by_item ws p.item_id) [
    | none ↦ l
    | some w ↦ record { of_work = put_work w.key p l.of_work; of_item = put_item p l.of_item }
  ]

  unfoldable pub note_positions : List (Work fl.Float) → List (Position fl.Float) → Latest → Latest
  note_positions ws [] l = l
  note_positions ws (p ∷ ps) l = note_positions ws ps (note_position ws p l)

  abbrev pub no_positions : Latest
  no_positions = record { of_work = []; of_item = λ id. none }

  unfoldable pub entry_for :
      Work fl.Float
      → Bytes
      → Item fl.Float
      → fl.Float
      → fl.Float
      → fl.Float
      → ContinueEntry fl.Float
  entry_for w key it position frac updated = record {
    item_id = it.id;
    work_key = key;
    title = w.title;
    label = item_label it;
    position_seconds = position;
    duration_seconds = item_duration fl it;
    fraction = frac;
    updated_at = updated;
  }

  -- Its own unfinished progress, else the start.
  unfoldable pub start_of : Latest → Item fl.Float → fl.Float
  start_of l next = elim (l.of_item next.id) [
    | none ↦ nought fl
    | some np ↦
        if is_watched fl np.position_seconds (item_duration fl next)
        then nought fl
        else np.position_seconds
  ]

  -- A finished member leads to the next one, and the last one to nothing.
  advance : Latest → Work fl.Float → Bytes → Position fl.Float → Option (ContinueEntry fl.Float)
  advance l w key p = if not (multi_part w) then none else elim (next_member w.items p.item_id) [
    | none ↦ none
    | some next ↦ some (entry_for w key next (start_of l next) (nought fl) p.updated_at)
  ]

  resume :
      Latest
      → Work fl.Float
      → Bytes
      → Position fl.Float
      → Item fl.Float
      → Option (ContinueEntry fl.Float)
  resume l w key p it = elim p.locator [
    | some loc ↦
        if fl.le (watched_at fl) (text_fraction fl (some it) (some loc))
        then none
        else some
            (entry_for w key it (nought fl) (text_fraction fl (some it) (some loc)) p.updated_at)
    | none ↦
        if is_watched fl p.position_seconds (item_duration fl it)
        then advance l w key p
        else some (entry_for w key it p.position_seconds (nought fl) p.updated_at)
  ]

  -- The entry of a work's latest position; a noted position has its work and item.
  unfoldable pub entry_of :
      List (Work fl.Float) → Latest → Bytes × Position fl.Float → Option (ContinueEntry fl.Float)
  unfolding resume advance start_of entry_for
  entry_of ws l (key, p) = elim (by_item ws p.item_id) [
    | none ↦ none
    | some w ↦ elim (item_at ws p.item_id) [ none ↦ none | some it ↦ resume l w key p it ]
  ]

  unfoldable pub entries_of :
      List (Work fl.Float) → Latest → Keyed (Position fl.Float) → List (ContinueEntry fl.Float)
  entries_of ws l [] = []
  entries_of ws l (kp ∷ kps) =
      let rest = entries_of ws l kps in elim (entry_of ws l kp) [ none ↦ rest | some e ↦ e ∷ rest ]

  -- The most recent first; then by item. No two entries of a library tie.
  unfoldable pub more_recent : ContinueEntry fl.Float → ContinueEntry fl.Float → Bool
  more_recent a b =
      if fl.le a.updated_at b.updated_at && fl.le b.updated_at a.updated_at
      then lt_int a.item_id b.item_id
      else fl.lt b.updated_at a.updated_at

  unfoldable pub continue_list :
      List (Work fl.Float) → List (Position fl.Float) → ℕ → List (ContinueEntry fl.Float)
  continue_list ws ps max =
      let l = note_positions ws ps no_positions in
      take max (sort_by more_recent (entries_of ws l l.of_work))
