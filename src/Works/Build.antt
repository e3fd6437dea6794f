-- ===== src/Works/Build.antt =====
-- Build of internal/works/works.go: from the items of the library to its works, in the order of their
-- titles.
pub mod Gather
pub mod Partition
pub mod Ordered
use flickr.Base.{
  ℕ, zero, suc, ◌+◌, ℤ, int_eq, Bool, true, false, not, ◌&&◌, ◌||◌, Option, none, some, List, [],
  ◌∷◌, ◌++◌, Bytes, str, bytes_eq, ◌==◌, nat_eq, if◌then◌else◌, is_empty, is_some, show_int, map,
  get_elem?, length,
}
use flickr.Base.Sort.{bytes_lt, sort_by}
use flickr.Base.FilePath.{base}
use flickr.Works.Items.{Item, kind}
use flickr.Works.Work.{Work, new_work, finish, slug_key, has_member}

-- A map whose keys are in the order of their first use: a Go map with its list of keys.
abbrev pub Keyed : Type 0 → Type 0
Keyed V = List (Bytes × V)

module _ {V : Type 0} where
  unfoldable pub find : Bytes → Keyed V → Option V
  find k [] = none
  find k ((j, v) ∷ vs) = let rest = find k vs in if j == k then some v else rest

  -- works[i] = f(works[i])
  unfoldable pub modify : ℕ → (V → V) → List V → List V
  modify i f [] = []
  modify zero f (v ∷ vs) = f v ∷ vs
  modify (suc i) f (v ∷ vs) = v ∷ modify i f vs

module _ {F : Type 0} where
  abbrev pub add_member : Item F → Work F → Work F
  add_member it w = record w { items = w.items ++ it ∷ [] }

  -- The item joins the work of its key, or starts one of this kind.
  unfoldable pub join_work : Bytes → Bytes → Item F → Keyed (Work F) → Keyed (Work F)
  join_work kind k it [] = (k, new_work kind (it ∷ [])) ∷ []
  join_work kind k it ((j, w) ∷ ws) =
      let rest = join_work kind k it ws in
      if j == k then (j, add_member it w) ∷ ws else (j, w) ∷ rest

  unfoldable pub title_of : Item F → Bytes
  title_of it = elim it.identity [ none ↦ [] | some id ↦ id.title ]

  unfoldable pub author_of : Item F → Bytes
  author_of it = elim it.identity [ none ↦ [] | some id ↦ id.author ]

  unfoldable pub values : Keyed (Work F) → List (Work F)
  values ws = map (λ kw. kw.1) ws

-- The state of Build's loops.
pub record Building (F : Type 0) : Type 0 where
  pub works : List (Work F)
  pub shows : Keyed (Work F)
  pub movie_at : Keyed ℕ
  pub extras : List (Item F)
  pub audio : Keyed (Work F)

abbrev pub nothing_built : {F : Type 0} → Building F
nothing_built = record { works = []; shows = []; movie_at = []; extras = []; audio = [] }

module _ {F : Type 0} (lower : Bytes → Bytes) where
  unfoldable pub audio_key : Bytes → Item F → Bytes
  unfolding author_of title_of
  audio_key work_kind it = work_kind ++ 0 ∷ (lower (author_of it) ++ 0 ∷ lower (title_of it))

  unfoldable pub add_audio : Bytes → Item F → Building F → Building F
  add_audio work_kind it b = record b {
    audio = join_work work_kind (audio_key work_kind it) it b.audio;
  }

  unfoldable pub add_movie : Item F → Building F → Building F
  unfolding title_of
  add_movie it b =
      let k = lower (title_of it) in
      record b {
        works = b.works ++ new_work (str "movie") (it ∷ []) ∷ [];
        movie_at =
            if is_empty k || is_some (find k b.movie_at)
            then b.movie_at
            else b.movie_at ++ (k, length b.works) ∷ [];
      }

  unfoldable pub add_file : Item F → Building F → Building F
  add_file it b = record b {
    works =
        b.works
        ++ (record (new_work (str "file") (it ∷ [])) {
          key = str "file:" ++ show_int it.id;
          title = base it.object_key;
        })
          ∷ [];
  }

  -- The switch of the first loop.
  unfoldable pub add_item : Item F → Building F → Building F
  unfolding add_audio add_movie add_file audio_key title_of author_of
  add_item it b =
      if kind it == str "audiobook_part"
      then add_audio (str "audiobook") it b
      else if kind it == str "track"
      then add_audio (str "album") it b
      else if kind it == str "book"
      then record b { works = b.works ++ new_work (str "book") (it ∷ []) ∷ [] }
      else if kind it == str "movie"
      then add_movie it b
      else if kind it == str "episode"
      then record b { shows = join_work (str "show") (lower (title_of it)) it b.shows }
      else if kind it == str "extra"
      then record b { extras = b.extras ++ it ∷ [] }
      else add_file it b

  unfoldable pub add_items : List (Item F) → Building F → Building F
  add_items [] b = b
  add_items (it ∷ its) b = add_items its (add_item it b)

  -- Bonus material joins its show, else the movie of its title, else a show of its own.
  unfoldable pub attach : Item F → Building F → Building F
  unfolding title_of
  attach it b =
      let k = lower (title_of it) in
      let to_show = record b { shows = join_work (str "show") k it b.shows } in
      if is_some (find k b.shows) then to_show else elim (find k b.movie_at) [
        | none ↦ to_show
        | some i ↦ record b { works = modify i (add_member it) b.works }
      ]

  unfoldable pub attach_all : List (Item F) → Building F → Building F
  attach_all [] b = b
  attach_all (it ∷ its) b = attach_all its (attach it b)

  -- Every work of the library, before it is finished.
  unfoldable pub group : List (Item F) → List (Work F)
  unfolding values
  group items =
      let b = add_items items nothing_built in
      let b' = attach_all b.extras b in b'.works ++ (values b'.shows ++ values b'.audio)

-- The state of dedupeKeys: the index of a key's latest work, and the works so far.
pub record Deduped (F : Type 0) : Type 0 where
  pub by_key : Keyed ℕ
  pub out : List (Work F)

module _ {F : Type 0} (lower : Bytes → Bytes) where
  unfoldable pub push : Work F → Deduped F → Deduped F
  push w d = record { by_key = (w.key, length d.out) ∷ d.by_key; out = d.out ++ w ∷ [] }

  -- The members of one more copy of the same work; all else is derived again.
  unfoldable pub merge : Work F → Work F → Work F
  merge w o = finish lower (new_work o.kind (o.items ++ w.items))

  -- A key that is taken falls back to the slug, and that to the slug with an item's id.
  unfoldable pub fallback : Keyed ℕ → Work F → Work F
  fallback by_key w =
      let k = slug_key lower w in
      record w {
        key = if is_some (find k by_key) then k ++ b'-' ∷ show_int w.representative_item_id else k;
      }

  -- One round; an index always finds its work.
  unfoldable pub dedupe_key : Work F → Deduped F → Deduped F
  dedupe_key w d = elim (find w.key d.by_key) [
    | none ↦ push w d
    | some i ↦ elim (get_elem? d.out i) [
      | none ↦ push w d
      | some o ↦
          if o.kind == w.kind
          then record d { out = modify i (merge w) d.out }
          else push (fallback d.by_key w) d
    ]
  ]

  unfoldable pub dedupe_all : List (Work F) → Deduped F → Deduped F
  dedupe_all [] d = d
  dedupe_all (w ∷ ws) d = dedupe_all ws (dedupe_key w d)

  unfoldable pub dedupe_keys : List (Work F) → List (Work F)
  dedupe_keys ws = (dedupe_all ws (record { by_key = []; out = [] })).out

  -- By title, whatever its case, and by key where titles tie.
  unfoldable pub work_less : Work F → Work F → Bool
  work_less a b =
      if lower a.title == lower b.title
      then bytes_lt a.key b.key
      else bytes_lt (lower a.title) (lower b.title)

  unfoldable pub build : List (Item F) → List (Work F)
  build items = sort_by work_less (dedupe_keys (map (finish lower) (group lower items)))

module _ {F : Type 0} where
  -- ByKey: the last work of a key wins.
  unfoldable pub by_key : List (Work F) → Bytes → Option (Work F)
  by_key [] k = none
  by_key (w ∷ ws) k = elim (by_key ws k) [
    | some later ↦ some later
    | none ↦ if w.key == k then some w else none
  ]

  -- ByItem: the last work that has the item.
  unfoldable pub by_item : List (Work F) → ℤ → Option (Work F)
  by_item [] id = none
  by_item (w ∷ ws) id = elim (by_item ws id) [
    | some later ↦ some later
    | none ↦ if has_member id w.items then some w else none
  ]
