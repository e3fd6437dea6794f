-- ===== src/Works/Build/Partition.antt =====
-- Build of internal/works/works.go loses no item and shows none twice.
use flickr.Base.{
  ℕ, zero, suc, ◌+◌, some, List, [], ◌∷◌, ◌++◌, ◌≡◌, refl, inl, inr, Bytes, bytes_eq, ◌==◌,
  if◌then◌else◌, map, get_elem?, Bool-cases, Option-cases, arith, ◌∙◌, ap,
}
use flickr.Base.Sort.{total, SameMembers, total-append, total-sort_by}
use flickr.Works.Items.{Item}
use flickr.Works.Work.{Work, new_work, finish, member_less}
use flickr.Works.Work.Finished.{finish-items}
use flickr.Works.Build.{
  find, modify, group, Deduped, push, merge, fallback, dedupe_key, dedupe_all, dedupe_keys,
  work_less, build,
}
use flickr.Works.Build.Gather.{members, of_works, total-members, total-group}

module _ {F : Type 0} (lower : Bytes → Bytes) where
  total-finish : (f : Item F → ℕ) (w : Work F) → total f (finish lower w).items ≡ total f w.items
  total-finish f w = ap (total f) (finish-items lower w) ∙ total-sort_by member_less f w.items

  total-map-finish :
      (f : Item F → ℕ) (ws : List (Work F)) → of_works f (map (finish lower) ws) ≡ of_works f ws
  total-map-finish f [] = refl
  total-map-finish f (w ∷ ws) = omega (arith, total-finish f w, total-map-finish f ws)

  total-merge :
      (f : Item F → ℕ) (w o : Work F)
      → total f (merge lower w o).items ≡ total f o.items + total f w.items
  unfolding merge
  total-merge f w o =
      omega (
        arith,
        total-finish f (new_work o.kind (o.items ++ w.items)),
        total-append f o.items w.items,
      )

  total-modify-merge :
      (f : Item F → ℕ) (i : ℕ) (w o : Work F) (ws : List (Work F))
      → get_elem? ws i ≡ some o
      → of_works f (modify i (merge lower w) ws) ≡ of_works f ws + total f w.items
  unfolding modify
  total-modify-merge f i w o [] h = cc
  total-modify-merge f zero w o (x ∷ ws) h = omega (arith, total-merge f w x)
  total-modify-merge f (suc i) w o (x ∷ ws) h = omega (arith, total-modify-merge f i w o ws h)

  total-push :
      (f : Item F → ℕ) (w : Work F) (d : Deduped F)
      → of_works f (push lower w d).out ≡ of_works f d.out + total f w.items
  unfolding push
  total-push f w d = omega (arith, total-append (λ (x : Work F). total f x.items) d.out (w ∷ []))

  total-dedupe_key :
      (f : Item F → ℕ) (w : Work F) (d : Deduped F)
      → of_works f (dedupe_key lower w d).out ≡ of_works f d.out + total f w.items
  unfolding dedupe_key fallback
  total-dedupe_key f w d = elim (Option-cases (find w.key d.by_key)) [
    | inl free ↦ rw (free, dedupe_key) (total-push f w d)
    | inr (i, taken) ↦ elim (Option-cases (get_elem? d.out i)) [
      | inl gone ↦ rw (taken, gone, dedupe_key) (total-push f w d)
      | inr (o, there) ↦ elim (Bool-cases (o.kind == w.kind)) [
        | inl same ↦
            rw (taken, there, same, dedupe_key, if◌then◌else◌)
              (total-modify-merge f i w o d.out there)
        | inr other ↦
            rw (taken, there, other, dedupe_key, if◌then◌else◌)
              (total-push f (fallback lower d.by_key w) d)
      ]
    ]
  ]

  total-dedupe_all :
      (f : Item F → ℕ) (ws : List (Work F)) (d : Deduped F)
      → of_works f (dedupe_all lower ws d).out ≡ of_works f d.out + of_works f ws
  unfolding dedupe_all
  total-dedupe_all f [] d = omega arith
  total-dedupe_all f (w ∷ ws) d =
      omega (arith, total-dedupe_all f ws (dedupe_key lower w d), total-dedupe_key f w d)

  -- The members of the works that Build gives are the items it was given, each exactly as often.
  pub build-SameMembers : (items : List (Item F)) → SameMembers (members (build lower items)) items
  unfolding build dedupe_keys
  build-SameMembers items p =
      let f : Item F → ℕ = λ it. if p it then 1 else 0 in
      let finished = map (finish lower) (group lower items) in
      let size : Work F → ℕ = λ w. total f w.items in
      omega (
        arith,
        total-members f (build lower items),
        total-sort_by (work_less lower) size (dedupe_keys lower finished),
        total-dedupe_all f finished (record { by_key = []; out = [] }),
        total-map-finish f (group lower items),
        total-group lower f items,
      )
