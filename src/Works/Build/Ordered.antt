-- ===== src/Works/Build/Ordered.antt =====
-- What Build in internal/works/works.go makes of every work, and the order it gives them in.
use flickr.Base.{
  ℕ, zero, suc, ◌<◌, true, false, List, [], ◌∷◌, ◌++◌, ◌≡◌, inl, inr, Bytes, bytes_eq, str, ◌==◌,
  if_cases, map, get_elem?, length, length-append, All, All-append, Option-cases, arith, ap,
}
use flickr.Base.Sort.{bytes_lt, IsOrder, sort_by-IsSorted, All-sort_by}
use flickr.Base.Turn.{
  AllInOrder, Tied, InTurn, IsSorted-AllInOrder, last-InTurn, by_key_then-InTurn,
}
use flickr.Base.Order.{by_key_then-IsOrder, bytes_lt-IsStrict}
use flickr.Works.Items.{Item}
use flickr.Works.Work.{Work, new_work, finish, has_member}
use flickr.Works.Work.Finished.{finish-item_count, finish-has_member, length-finish}
use flickr.Works.Work.Ordered.{MemberOrder, finish-MemberOrder}
use flickr.Works.Build.{
  Keyed, modify, add_member, join_work, Building, nothing_built, add_item, add_audio, add_movie,
  add_items, attach, attach_all, group, Deduped, push, merge, fallback, dedupe_key, dedupe_all,
  dedupe_keys, work_less, build, values, find,
}
use flickr.Works.Build.Gather.{add_item-cases, attach-cases}

All-modify :
    {V : Type 0} (P : V → Type 0) (i : ℕ) (f : V → V) (vs : List V)
    → ((v : V) → P v → P (f v))
    → All P vs
    → All P (modify i f vs)
unfolding modify
All-modify P i f [] g h = h
All-modify P zero f (v ∷ vs) g (pv, h) = (g v pv, h)
All-modify P (suc i) f (v ∷ vs) g (pv, h) = (pv, All-modify P i f vs g h)

module _ {F : Type 0} where
  -- A work has a member.
  abbrev HasMember : Work F → Type 0
  HasMember w = 0 < length w.items

  abbrev AllShown : Building F → Type 0
  AllShown b =
      All HasMember b.works
      × All (λ kw. HasMember kw.1) b.shows
      × All (λ kw. HasMember kw.1) b.audio

  add_member-HasMember : (it : Item F) (w : Work F) → HasMember (add_member it w)
  add_member-HasMember it w = omega (arith, length-append w.items (it ∷ []))

  join_work-HasMember :
      (kind k : Bytes) (it : Item F) (ws : Keyed (Work F))
      → All (λ kw. HasMember kw.1) ws
      → All (λ kw. HasMember kw.1) (join_work kind k it ws)
  unfolding join_work
  join_work-HasMember kind k it [] h = (omega arith, tt)
  join_work-HasMember kind k it ((j, w) ∷ ws) (hw, h) =
      if_cases (All _) (j == k) _ _ (add_member-HasMember it w, h)
        (hw, join_work-HasMember kind k it ws h)

  values-HasMember :
      (ws : Keyed (Work F)) → All (λ kw. HasMember kw.1) ws → All HasMember (values ws)
  unfolding values
  values-HasMember [] h = h
  values-HasMember (kw ∷ ws) (hw, h) = (hw, values-HasMember ws h)

module _ {F : Type 0} (lower : Bytes → Bytes) where
  add_item-AllShown : (it : Item F) (b : Building F) → AllShown b → AllShown (add_item lower it b)
  unfolding add_audio add_movie
  add_item-AllShown it b (works, shows, audio) =
      add_item-cases lower AllShown it b
        (λ k. (works, shows, join_work-HasMember k _ it b.audio audio))
        (λ w e.
          (All-append HasMember b.works _ works (omega (arith, ap length e), tt), shows, audio))
        (All-append HasMember b.works _ works (omega arith, tt), shows, audio)
        (λ k. (works, join_work-HasMember (str "show") k it b.shows shows, audio))
        (works, shows, audio)

  add_items-AllShown :
      (its : List (Item F)) (b : Building F) → AllShown b → AllShown (add_items lower its b)
  unfolding add_items
  add_items-AllShown [] b h = h
  add_items-AllShown (it ∷ its) b h = add_items-AllShown its _ (add_item-AllShown it b h)

  attach-AllShown : (it : Item F) (b : Building F) → AllShown b → AllShown (attach lower it b)
  attach-AllShown it b (works, shows, audio) =
      attach-cases lower AllShown it b
        (works, join_work-HasMember (str "show") _ it b.shows shows, audio)
        (λ i e.
          (All-modify HasMember i _ b.works (λ w h. add_member-HasMember it w) works, shows, audio))

  attach_all-AllShown :
      (its : List (Item F)) (b : Building F) → AllShown b → AllShown (attach_all lower its b)
  unfolding attach_all
  attach_all-AllShown [] b h = h
  attach_all-AllShown (it ∷ its) b h = attach_all-AllShown its _ (attach-AllShown it b h)

  group-HasMember : (items : List (Item F)) → All HasMember (group lower items)
  unfolding group
  group-HasMember items =
      let b = add_items lower items nothing_built in
      let b' = attach_all lower b.extras b in
      let (works, shows, audio) : AllShown b' =
        attach_all-AllShown b.extras b (add_items-AllShown items nothing_built (tt, tt, tt)) in
      All-append HasMember b'.works _ works (
        All-append HasMember (values b'.shows) _ (values-HasMember b'.shows shows)
          (values-HasMember b'.audio audio))

  -- What finish makes of a work that has a member.
  pub record WellFormed (w : Work F) : Type 0 where
    pub in_order : AllInOrder MemberOrder w.items
    pub counted : w.item_count ≡ length w.items
    pub artwork : has_member w.representative_item_id w.items ≡ true
    pub nonempty : HasMember w

  finish-WellFormed : (w : Work F) → HasMember w → WellFormed (finish lower w)
  finish-WellFormed w h = record {
    in_order = finish-MemberOrder lower w;
    counted = finish-item_count lower w;
    artwork = finish-has_member lower w h;
    nonempty = omega (arith, length-finish lower w);
  }

  map-finish-WellFormed :
      (ws : List (Work F)) → All HasMember ws → All WellFormed (map (finish lower) ws)
  map-finish-WellFormed [] h = tt
  map-finish-WellFormed (w ∷ ws) (hw, h) = (finish-WellFormed w hw, map-finish-WellFormed ws h)

  merge-WellFormed : (w o : Work F) → WellFormed o → WellFormed (merge lower w o)
  unfolding merge
  merge-WellFormed w o h =
      finish-WellFormed (new_work o.kind (o.items ++ w.items))
        (omega (arith, length-append o.items w.items, h.nonempty))

  push-WellFormed :
      (w : Work F) (d : Deduped F)
      → WellFormed w
      → All WellFormed d.out
      → All WellFormed (push lower w d).out
  unfolding push
  push-WellFormed w d hw h = All-append WellFormed d.out (w ∷ []) h (hw, tt)

  fallback-WellFormed : (m : Keyed ℕ) (w : Work F) → WellFormed w → WellFormed (fallback lower m w)
  unfolding fallback
  fallback-WellFormed m w h = record {
    in_order = h.in_order;
    counted = h.counted;
    artwork = h.artwork;
    nonempty = h.nonempty;
  }

  dedupe_key-WellFormed :
      (w : Work F) (d : Deduped F)
      → WellFormed w
      → All WellFormed d.out
      → All WellFormed (dedupe_key lower w d).out
  unfolding dedupe_key
  dedupe_key-WellFormed w d hw h = elim (Option-cases (find w.key d.by_key)) [
    | inl free ↦ rw (free, dedupe_key) (push-WellFormed w d hw h)
    | inr (i, taken) ↦ elim (Option-cases (get_elem? d.out i)) [
      | inl gone ↦ rw (taken, gone, dedupe_key) (push-WellFormed w d hw h)
      | inr (o, there) ↦
          rw (taken, there, dedupe_key)
            (if_cases (λ (d' : Deduped F). All WellFormed d'.out) (o.kind == w.kind) _ _
              (All-modify WellFormed i (merge lower w) d.out (λ v hv. merge-WellFormed w v hv) h)
              (push-WellFormed _ d (fallback-WellFormed d.by_key w hw) h))
    ]
  ]

  dedupe_all-WellFormed :
      (ws : List (Work F)) (d : Deduped F)
      → All WellFormed ws
      → All WellFormed d.out
      → All WellFormed (dedupe_all lower ws d).out
  unfolding dedupe_all
  dedupe_all-WellFormed [] d hw h = h
  dedupe_all-WellFormed (w ∷ ws) d (hw, hws) h =
      dedupe_all-WellFormed ws _ hws (dedupe_key-WellFormed w d hw h)

  works-WellFormed : (items : List (Item F)) → All WellFormed (build lower items)
  unfolding build dedupe_keys
  works-WellFormed items =
      All-sort_by (work_less lower) WellFormed _
        (dedupe_all-WellFormed _ _ (map-finish-WellFormed _ (group-HasMember items)) tt)

  work_less-IsOrder : IsOrder (work_less {F = F} lower)
  unfolding work_less
  work_less-IsOrder =
      by_key_then-IsOrder (λ w. lower w.title) bytes_lt (λ a b. bytes_lt a.key b.key)
        bytes_lt-IsStrict
        (record {
          asymmetric = λ a b. bytes_lt-IsStrict.asym a.key b.key;
          negated_trans = λ a b c. bytes_lt-IsStrict.negated a.key b.key c.key;
        })

  -- By title, whatever its case, and by key where titles tie.
  abbrev pub WorkOrder : Work F → Work F → Type 0
  WorkOrder = InTurn (λ w. lower w.title) bytes_lt (InTurn (λ w. w.key) bytes_lt Tied)

  work_less-WorkOrder : (x y : Work F) → work_less lower y x ≡ false → WorkOrder x y
  unfolding work_less
  work_less-WorkOrder =
      by_key_then-InTurn (λ w. lower w.title) bytes_lt bytes_lt-IsStrict _ _
        (last-InTurn (λ w. w.key) bytes_lt bytes_lt-IsStrict)

  -- Every work that Build gives has a member, its members with bonus material last and else in the order of season, then episode or part, 0 behind the others, then object key and id, where the identities give the numbers, the count of its members, and the artwork of a member; the works are given by title, whatever its case, and by key where titles tie.
  pub build-WellFormed :
      (items : List (Item F))
      → All WellFormed (build lower items) × AllInOrder WorkOrder (build lower items)
  unfolding build
  build-WellFormed items = (
    works-WellFormed items,
    IsSorted-AllInOrder (work_less lower) WorkOrder _ work_less-WorkOrder
        (sort_by-IsSorted (work_less lower) work_less-IsOrder _),
  )
