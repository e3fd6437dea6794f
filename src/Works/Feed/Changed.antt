-- ===== src/Works/Feed/Changed.antt =====
-- Which works the feed of internal/works/feed.go sends: those with news for the cursor, in their order.
use flickr.Base.{
  ℤ, int_eq, int_beq_iff, lt_int, true, some, List, [], ◌∷◌, ◌≡◌, refl, sym, ◌∙◌, ◌↔◌, ◌⊎◌, inl,
  inr, ◌==◌, if◌then◌else◌, Bool-cases, or_iff, Any,
}
use mathlib.Core.Bool.{true≢false}
use flickr.Base.Float.{Floats}
use flickr.Works.Items.{Item}
use flickr.Works.Work.{Work}
use flickr.Works.Place.{Position}
use flickr.Works.Cursor.{Cursor}
use flickr.Works.Feed.{FeedWork, rows_of, newer_row, newer_member, resync, changed, feed_work, feed}

module _ {F : Type 0} where
  -- Newer than a cursor: a member, or a row of it.
  abbrev NewRow : Cursor → List (Position F) → Item F → Type 0
  NewRow c ps it = Any (λ p. (p.item_id ≡ it.id) × (lt_int c.state p.seq ≡ true)) ps

  abbrev NewMember : Cursor → List (Position F) → Item F → Type 0
  NewMember c ps it = (lt_int c.lib it.seq ≡ true) ⊎ NewRow c ps it

  -- What a cursor has not seen of a work: a deletion anywhere, or a member or a row of one.
  abbrev pub News : List (Position F) → Cursor → ℤ → Work F → Type 0
  News ps c deletion_seq w = (lt_int c.lib deletion_seq ≡ true) ⊎ Any (NewMember c ps) w.items

  -- The works with news are sent, in their order, and the others are left out.
  pub data Sends (ps : List (Position F)) (c : Cursor) (deletion_seq : ℤ)
      : List (Work F) → List (FeedWork F) → Type 0 where
    nothing : Sends ps c deletion_seq [] []
    send :
        (w : Work F) (fw : FeedWork F) (ws : List (Work F)) (fws : List (FeedWork F))
        → News ps c deletion_seq w
        → fw.work ≡ w
        → Sends ps c deletion_seq ws fws
        → Sends ps c deletion_seq (w ∷ ws) (fw ∷ fws)
    pass :
        (w : Work F) (ws : List (Work F)) (fws : List (FeedWork F))
        → (News ps c deletion_seq w → ⊥)
        → Sends ps c deletion_seq ws fws
        → Sends ps c deletion_seq (w ∷ ws) fws

  newer_row-NewRow :
      (c : Cursor) (ps : List (Position F)) (it : Item F)
      → (newer_row c.state (rows_of ps it.id) ≡ true) ↔ NewRow c ps it
  unfolding newer_row rows_of
  newer_row-NewRow c [] it = (λ h. cc h, λ h. absurd h)
  newer_row-NewRow c (p ∷ ps) it = elim (Bool-cases (p.item_id == it.id)) [
    | inl own ↦
        let (there, back) = newer_row-NewRow c ps it in
        let (split, join) = or_iff (lt_int c.state p.seq) (newer_row c.state (rows_of ps it.id)) in
        rw (own, if◌then◌else◌)
          (
            λ h. elim (split h) [
              | inl new ↦ inl ((int_beq_iff p.item_id it.id).0 own, new)
              | inr later ↦ inr (there later)
            ],
            λ h. elim h [ inl (same, new) ↦ join (inl new) | inr later ↦ join (inr (back later)) ],
          )
    | inr other ↦
        let (there, back) = newer_row-NewRow c ps it in
        rw (other, if◌then◌else◌)
          (
            λ h. inr (there h),
            λ h. elim h [
              | inl (same, new) ↦
                  absurd (true≢false (sym ((int_beq_iff p.item_id it.id).1 same) ∙ other))
              | inr later ↦ back later
            ],
          )
  ]

  newer_member-NewMember :
      (c : Cursor) (ps : List (Position F)) (its : List (Item F))
      → (newer_member c ps its ≡ true) ↔ Any (NewMember c ps) its
  unfolding newer_member
  newer_member-NewMember c ps [] = (λ h. cc h, λ h. absurd h)
  newer_member-NewMember c ps (it ∷ its) =
      let (row, row_back) = newer_row-NewRow c ps it in
      let (later, later_back) = newer_member-NewMember c ps its in
      let (split, join) = or_iff (lt_int c.lib it.seq) _ in
      let (split', join') = or_iff (newer_row c.state (rows_of ps it.id)) (newer_member c ps its) in
      (
        λ h. elim (split h) [
          | inl new ↦ inl (inl new)
          | inr rest ↦ elim (split' rest) [ inl r ↦ inl (inr (row r)) | inr l ↦ inr (later l) ]
        ],
        λ h. elim h [
          | inl (inl new) ↦ join (inl new)
          | inl (inr r) ↦ join (inr (join' (inl (row_back r))))
          | inr l ↦ join (inr (join' (inr (later_back l))))
        ],
      )

  changed-News :
      (ps : List (Position F)) (c : Cursor) (deletion_seq : ℤ) (w : Work F)
      → (changed ps (some c) deletion_seq w ≡ true) ↔ News ps c deletion_seq w
  unfolding changed resync
  changed-News ps c deletion_seq w =
      let (split, join) = or_iff (lt_int c.lib deletion_seq) (newer_member c ps w.items) in
      let (newer, back) = newer_member-NewMember c ps w.items in
      (
        λ h. elim (split h) [ inl gone ↦ inl gone | inr new ↦ inr (newer new) ],
        λ h. elim h [ inl gone ↦ join (inl gone) | inr new ↦ join (inr (back new)) ],
      )

module _ (fl : Floats) where
  -- The feed for a cursor sends the works of the library with news for it, in their order, and no others; news is a deletion since, a newer member, or a newer row of a member.
  pub feed-Sends :
      (ws : List (Work fl.Float)) (ps : List (Position fl.Float)) (c : Cursor) (deletion_seq : ℤ)
      → Sends ps c deletion_seq ws (feed fl ws ps (some c) deletion_seq)
  unfolding feed feed_work
  feed-Sends [] ps c deletion_seq = nothing
  feed-Sends (w ∷ ws) ps c deletion_seq = elim (Bool-cases (changed ps (some c) deletion_seq w)) [
    | inl new ↦
        rw (new, if◌then◌else◌)
          (send w _ ws _ ((changed-News ps c deletion_seq w).0 new) refl
            (feed-Sends ws ps c deletion_seq))
    | inr old ↦
        rw (old, if◌then◌else◌)
          (pass w ws _ (λ news. true≢false (sym ((changed-News ps c deletion_seq w).1 news) ∙ old))
            (feed-Sends ws ps c deletion_seq))
  ]
