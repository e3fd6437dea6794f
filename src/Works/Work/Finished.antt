-- ===== src/Works/Work/Finished.antt =====
-- What finish in internal/works/works.go keeps of a work: its kind, and its members in their order.
use flickr.Base.{
  ◌<◌, ℤ, int_eq, int_beq, int_beq_iff, true, List, [], ◌∷◌, Option, none, some, Bytes, ◌≡◌, ◌∙◌,
  ap, sym, refl, length, arith, inl, inr, ◌⊎◌, if_cases,
}
use flickr.Base.Sort.{sort_by, length-sort_by}
use flickr.Works.Items.{Item}
use flickr.Model.{Enrichment}
use flickr.Works.Work.{
  Work, enriched, counted, sorted, identified, keyed, represented, first_enriched, finish,
  member_less, representative, head_id, has_poster, has_member,
}

module _ {F : Type 0} (lower : Bytes → Bytes) where
  enriched-items : (e : Option Enrichment) (w : Work F) → (enriched lower e w).items ≡ w.items
  unfolding enriched
  enriched-items none w = refl
  enriched-items (some e) w = refl

  enriched-kind : (e : Option Enrichment) (w : Work F) → (enriched lower e w).kind ≡ w.kind
  unfolding enriched
  enriched-kind none w = refl
  enriched-kind (some e) w = refl

  pub finish-items : (w : Work F) → (finish lower w).items ≡ sort_by member_less w.items
  unfolding finish
  finish-items w =
      let s = identified lower (counted lower (sorted lower w)) in
      enriched-items (first_enriched s.items) s

  pub finish-kind : (w : Work F) → (finish lower w).kind ≡ w.kind
  unfolding finish
  finish-kind w =
      let s = identified lower (counted lower (sorted lower w)) in
      enriched-kind (first_enriched s.items) s

  enriched-item_count :
      (e : Option Enrichment) (w : Work F) → (enriched lower e w).item_count ≡ w.item_count
  unfolding enriched
  enriched-item_count none w = refl
  enriched-item_count (some e) w = refl

  pub finish-item_count : (w : Work F) → (finish lower w).item_count ≡ length (finish lower w).items
  unfolding finish counted
  finish-item_count w =
      let s = identified lower (counted lower (sorted lower w)) in
      enriched-item_count (first_enriched s.items) s
      ∙ ap length (sym (enriched-items (first_enriched s.items) s))

  finish-artwork :
      (w : Work F)
      → (finish lower w).representative_item_id
        ≡ representative (head_id (finish lower w).items) (finish lower w).items
  unfolding finish represented keyed
  finish-artwork w = refl

module _ {F : Type 0} where
  in_tail :
      (it : Item F) (its : List (Item F)) (id : ℤ)
      → has_member id its ≡ true
      → has_member id (it ∷ its) ≡ true
  unfolding has_member
  in_tail it its id h = ground (arith, h)

  -- The first member with a poster is a member, and without one it is the head.
  has_member-representative :
      (d : ℤ) (its : List (Item F))
      → (representative d its ≡ d) ⊎ (has_member (representative d its) its ≡ true)
  unfolding has_member representative
  has_member-representative d [] = inl refl
  has_member-representative d (it ∷ its) =
      if_cases (λ r. (r ≡ d) ⊎ (has_member r (it ∷ its) ≡ true)) (has_poster it) _ _
        (inr (rw ((int_beq_iff it.id it.id).1 refl) refl))
        (elim (has_member-representative d its) [
          | inl none_has ↦ inl none_has
          | inr later ↦ inr (in_tail it its (representative d its) later)
        ])

  has_member-head : (its : List (Item F)) → 0 < length its → has_member (head_id its) its ≡ true
  unfolding has_member head_id int_beq
  has_member-head [] h = absurd (omega arith)
  has_member-head (it ∷ its) h = rw ((int_beq_iff it.id it.id).1 refl) refl

  has_member-artwork :
      (its : List (Item F))
      → 0 < length its
      → has_member (representative (head_id its) its) its ≡ true
  has_member-artwork its h = elim (has_member-representative (head_id its) its) [
    | inl head ↦ rw head (has_member-head its h)
    | inr later ↦ later
  ]

  -- The members are as many as before.
  pub length-finish :
      (lower : Bytes → Bytes) (w : Work F) → length (finish lower w).items ≡ length w.items
  length-finish lower w = ap length (finish-items lower w) ∙ length-sort_by member_less w.items

  pub finish-has_member :
      (lower : Bytes → Bytes) (w : Work F)
      → 0 < length w.items
      → has_member (finish lower w).representative_item_id (finish lower w).items ≡ true
  finish-has_member lower w h =
      rw (finish-artwork lower w)
        (has_member-artwork (finish lower w).items (omega (arith, length-finish lower w)))
