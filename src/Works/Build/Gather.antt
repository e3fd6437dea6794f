-- ===== src/Works/Build/Gather.antt =====
-- The first loops of Build in internal/works/works.go put every item into one work.
use flickr.Base.{
  ℕ, zero, suc, ◌+◌, ◌<◌, none, some, List, [], ◌∷◌, ◌++◌, ◌≡◌, refl, inl, inr, Bytes, str,
  bytes_eq, ◌==◌, if◌then◌else◌, is_some, length, length-append, All, All-map, All-append,
  Bool-cases, arith, ◌∙◌, some_inj, if_cases, subst, ap,
}
use flickr.Base.Sort.{total, total-append}
use flickr.Works.Items.{Item, kind}
use flickr.Works.Work.{Work, new_work}
use flickr.Works.Build.{
  Keyed, find, modify, add_member, join_work, Building, nothing_built, add_item, add_audio,
  add_movie, add_file, audio_key, title_of, add_items, attach, attach_all, group, values,
}

module _ {F : Type 0} where
  -- The members of all works, one after the other.
  unfoldable pub members : List (Work F) → List (Item F)
  members [] = []
  members (w ∷ ws) = w.items ++ members ws

  -- A measure of the members, summed over the works.
  abbrev pub of_works : (Item F → ℕ) → List (Work F) → ℕ
  of_works f = total (λ w. total f w.items)

  abbrev of_keyed : (Item F → ℕ) → Keyed (Work F) → ℕ
  of_keyed f = total (λ kw. total f kw.1.items)

  pub total-members : (f : Item F → ℕ) (ws : List (Work F)) → total f (members ws) ≡ of_works f ws
  unfolding members
  total-members f [] = refl
  total-members f (w ∷ ws) = omega (arith, total-append f w.items (members ws), total-members f ws)

  total-join_work :
      (f : Item F → ℕ) (kind k : Bytes) (it : Item F) (ws : Keyed (Work F))
      → of_keyed f (join_work kind k it ws) ≡ f it + of_keyed f ws
  unfolding join_work
  total-join_work f kind k it [] = omega arith
  total-join_work f kind k it ((j, w) ∷ ws) =
      ground (arith, total-join_work f kind k it ws, total-append f w.items (it ∷ []))

  total-modify :
      (f : Item F → ℕ) (i : ℕ) (it : Item F) (ws : List (Work F))
      → i < length ws
      → of_works f (modify i (add_member it) ws) ≡ f it + of_works f ws
  unfolding modify
  total-modify f i it [] h = absurd (omega arith)
  total-modify f zero it (w ∷ ws) h = omega (arith, total-append f w.items (it ∷ []))
  total-modify f (suc i) it (w ∷ ws) h = omega (arith, total-modify f i it ws (omega arith))

  total-values : (f : Item F → ℕ) (ws : Keyed (Work F)) → of_works f (values ws) ≡ of_keyed f ws
  unfolding values
  total-values f [] = refl
  total-values f (kw ∷ ws) = omega (arith, total-values f ws)

  -- What a state of the loops holds.
  abbrev held : (Item F → ℕ) → Building F → ℕ
  held f b = of_works f b.works + of_keyed f b.shows + of_keyed f b.audio + total f b.extras

  abbrev InRange : Building F → Type 0
  InRange b = All (λ ki. ki.1 < length b.works) b.movie_at

length-modify : {V : Type 0} (i : ℕ) (f : V → V) (vs : List V) → length (modify i f vs) ≡ length vs
unfolding modify
length-modify i f [] = refl
length-modify zero f (v ∷ vs) = refl
length-modify (suc i) f (v ∷ vs) = omega (arith, length-modify i f vs)

find-All :
    (P : ℕ → Type 0) (k : Bytes) (m : Keyed ℕ) (i : ℕ)
    → All (λ ki. P ki.1) m
    → find k m ≡ some i
    → P i
unfolding find
find-All P k [] i h e = cc
find-All P k ((j, v) ∷ m) i (pv, h) e = elim (Bool-cases (j == k)) [
  | inl here ↦ subst P (some_inj (rw (here, if◌then◌else◌) at e)) pv
  | inr other ↦ find-All P k m i h (rw (other, if◌then◌else◌) at e)
]

module _ {F : Type 0} (lower : Bytes → Bytes) where
  -- The outcomes of the switch over an item's kind.
  pub add_item-cases :
      (P : Building F → Type 0) (it : Item F) (b : Building F)
      → ((k : Bytes) → P (add_audio lower k it b))
      → ((w : Work F) → w.items ≡ it ∷ [] → P (record b { works = b.works ++ w ∷ [] }))
      → P (add_movie lower it b)
      → ((k : Bytes) → P (record b { shows = join_work (str "show") k it b.shows }))
      → P (record b { extras = b.extras ++ it ∷ [] })
      → P (add_item lower it b)
  unfolding add_item add_file
  add_item-cases P it b audio alone movie show extra =
      if_cases P (kind it == str "audiobook_part") _ _ (audio (str "audiobook")) (
        if_cases P (kind it == str "track") _ _ (audio (str "album")) (
          if_cases P (kind it == str "book") _ _ (alone _ refl) (
            if_cases P (kind it == str "movie") _ _ movie (
              if_cases P (kind it == str "episode") _ _ (show _)
                (if_cases P (kind it == str "extra") _ _ extra (alone _ refl))))))

  held-add_item :
      (f : Item F → ℕ) (it : Item F) (b : Building F)
      → held f (add_item lower it b) ≡ f it + held f b
  unfolding add_audio add_movie
  held-add_item f it b =
      add_item-cases (λ b'. held f b' ≡ f it + held f b) it b
        (λ k. omega (arith, total-join_work f k (audio_key lower k it) it b.audio))
        (λ w e. omega (arith, total-append (λ w. total f w.items) b.works (w ∷ []), ap (total f) e))
        (omega (
          arith,
          total-append (λ w. total f w.items) b.works (new_work (str "movie") (it ∷ []) ∷ []),
        ))
        (λ k. omega (arith, total-join_work f (str "show") k it b.shows))
        (omega (arith, total-append f b.extras (it ∷ [])))

  further :
      (b : Building F) (w : Work F)
      → InRange b
      → All (λ ki. ki.1 < length (b.works ++ w ∷ [])) b.movie_at
  further b w h = All-map _ _ b.movie_at (λ ki lt. omega (arith, length-append b.works (w ∷ []))) h

  add_item-InRange : (it : Item F) (b : Building F) → InRange b → InRange (add_item lower it b)
  unfolding add_audio add_movie
  add_item-InRange it b h =
      add_item-cases InRange it b (λ k. h) (λ w e. further b w h)
        (if_cases (All _) _ _ _ (further b _ h) (
          All-append _ b.movie_at _ (further b _ h)
            (omega (arith, length-append b.works (new_work (str "movie") (it ∷ []) ∷ [])), tt)))
        (λ k. h) h

  held-add_items :
      (f : Item F → ℕ) (its : List (Item F)) (b : Building F)
      → held f (add_items lower its b) ≡ total f its + held f b
  unfolding add_items
  held-add_items f [] b = omega arith
  held-add_items f (it ∷ its) b =
      omega (arith, held-add_items f its (add_item lower it b), held-add_item f it b)

  add_items-InRange :
      (its : List (Item F)) (b : Building F) → InRange b → InRange (add_items lower its b)
  unfolding add_items
  add_items-InRange [] b h = h
  add_items-InRange (it ∷ its) b h =
      add_items-InRange its (add_item lower it b) (add_item-InRange it b h)

  pub attach-cases :
      (P : Building F → Type 0) (it : Item F) (b : Building F)
      → P (record b { shows = join_work (str "show") (lower (title_of it)) it b.shows })
      → ((i : ℕ)
          → find (lower (title_of it)) b.movie_at ≡ some i
          → P (record b { works = modify i (add_member it) b.works }))
      → P (attach lower it b)
  unfolding attach
  attach-cases P it b show movie =
      let k = lower (title_of it) in
      if_cases P (is_some (find k b.shows)) _ _ show (
        (elim (find k b.movie_at)
            as (λ o.
              find k b.movie_at ≡ o
              → P (elim o as (λ _. Building F) [
                | none ↦ record b { shows = join_work (str "show") k it b.shows }
                | some i ↦ record b { works = modify i (add_member it) b.works }
              ])) [ none ↦ λ e. show | some i ↦ λ e. movie i e ])
          refl)

  held-attach :
      (f : Item F → ℕ) (it : Item F) (b : Building F)
      → InRange b
      → held f (attach lower it b) ≡ f it + held f b
  held-attach f it b h =
      attach-cases (λ b'. held f b' ≡ f it + held f b) it b
        (omega (arith, total-join_work f (str "show") (lower (title_of it)) it b.shows))
        (λ i e. omega (
          arith,
          total-modify f i it b.works (find-All (λ i. i < length b.works) _ b.movie_at i h e),
        ))

  attach-InRange : (it : Item F) (b : Building F) → InRange b → InRange (attach lower it b)
  attach-InRange it b h = attach-cases InRange it b h (λ i e.
      All-map _ _ b.movie_at (λ ki lt. omega (arith, length-modify i (add_member it) b.works)) h)

  extras-attach : (it : Item F) (b : Building F) → (attach lower it b).extras ≡ b.extras
  extras-attach it b = attach-cases (λ b'. b'.extras ≡ b.extras) it b refl (λ i e. refl)

  held-attach_all :
      (f : Item F → ℕ) (its : List (Item F)) (b : Building F)
      → InRange b
      → held f (attach_all lower its b) ≡ total f its + held f b
  unfolding attach_all
  held-attach_all f [] b h = omega arith
  held-attach_all f (it ∷ its) b h = omega (
    arith,
    held-attach_all f its (attach lower it b) (attach-InRange it b h),
    held-attach f it b h,
  )

  pub extras-attach_all :
      (its : List (Item F)) (b : Building F) → (attach_all lower its b).extras ≡ b.extras
  unfolding attach_all
  extras-attach_all [] b = refl
  extras-attach_all (it ∷ its) b = extras-attach_all its (attach lower it b) ∙ extras-attach it b

  pub total-group :
      (f : Item F → ℕ) (items : List (Item F)) → of_works f (group lower items) ≡ total f items
  unfolding group
  total-group f items =
      let b = add_items lower items nothing_built in
      let b' = attach_all lower b.extras b in
      omega (
        arith,
        total-append (λ (w : Work F). total f w.items) b'.works
            (values b'.shows ++ values b'.audio),
        total-append (λ (w : Work F). total f w.items) (values b'.shows) (values b'.audio),
        total-values f b'.shows,
        total-values f b'.audio,
        held-attach_all f b.extras b (add_items-InRange items nothing_built tt),
        held-add_items f items nothing_built,
        ap (total f) (extras-attach_all b.extras b),
      )
