-- ===== src/Works/Neighbours.antt =====
-- Neighbours of internal/works/progress.go: the members either side of one, bonus material passed over.
pub mod Mutual
use flickr.Base.{
  ℤ, int_eq, int_beq, int_beq_iff, Bool, true, false, not, ◌||◌, Option, none, some, List, [], ◌∷◌,
  ◌++◌, ◌≡◌, refl, ◌≢◌, ◌⊎◌, inl, inr, ap, ◌∙◌, sym, ◌==◌, if◌then◌else◌, All, arith, Bool-cases,
}
use mathlib.Core.List.{reverse_aux, reverse}
use flickr.Works.Items.{Item, is_extra}

module _ {F : Type 0} where
  -- The inner loops: the first member that is no bonus material.
  unfoldable pub first_real : List (Item F) → Option (Item F)
  first_real [] = none
  first_real (it ∷ its) = let rest = first_real its in if is_extra it then rest else some it

  -- The outer loop; `seen` are the members before, the nearest first.
  unfoldable pub neighbours_from :
      List (Item F) → List (Item F) → ℤ → Option (Item F) × Option (Item F)
  neighbours_from seen [] id = (none, none)
  neighbours_from seen (it ∷ its) id =
      let rest = neighbours_from (it ∷ seen) its id in
      if not (it.id == id) || is_extra it then rest else (first_real seen, first_real its)

  unfoldable pub neighbours : List (Item F) → ℤ → Option (Item F) × Option (Item F)
  neighbours its id = neighbours_from [] its id

  unfoldable pub next_member : List (Item F) → ℤ → Option (Item F)
  next_member its id = (neighbours its id).1

  -- The members that a work is moved through.
  unfoldable pub reals : List (Item F) → List (Item F)
  reals [] = []
  reals (it ∷ its) = let rest = reals its in if is_extra it then rest else it ∷ rest

  abbrev pub first : List (Item F) → Option (Item F)
  first [] = none
  first (it ∷ its) = some it

  first_real-reals : (its : List (Item F)) → first_real its ≡ first (reals its)
  unfolding first_real reals
  first_real-reals [] = refl
  first_real-reals (it ∷ its) = elim (Bool-cases (is_extra it)) [
    | inl extra ↦ rw (extra, if◌then◌else◌) (first_real-reals its)
    | inr real ↦ rw (real, if◌then◌else◌) refl
  ]

  -- Where an id stands among the members that a work is moved through.
  pub record StandsAt (members : List (Item F)) (id : ℤ) : Type 0 where
    pub before : List (Item F)
    pub member : Item F
    pub behind : List (Item F)
    pub split : members ≡ before ++ member ∷ behind
    pub is : member.id ≡ id
    pub others : All (λ m. m.id ≢ id) before

  -- What stands next to it: nothing where the id is of no member.
  abbrev pub Beside : List (Item F) → List (Item F) → ℤ → Option (Item F) × Option (Item F) → Type 0
  Beside seen members id (prev, next) =
      ((s : StandsAt members id) × (prev ≡ first (reverse_aux s.before seen))
        × (next ≡ first s.behind))
      ⊎ (All (λ m. m.id ≢ id) members × (prev ≡ none) × (next ≡ none))

  step_past :
      (seen members : List (Item F)) (it : Item F) (id : ℤ) (r : Option (Item F) × Option (Item F))
      → it.id ≢ id
      → Beside (it ∷ seen) members id r
      → Beside seen (it ∷ members) id r
  step_past seen members it id r other (inl (s, prev, next)) = inl (
    record {
      before = it ∷ s.before;
      member = s.member;
      behind = s.behind;
      split = ap (λ m. it ∷ m) s.split;
      is = s.is;
      others = (other, s.others);
    },
    prev,
    next,
  )
  step_past seen members it id r other (inr (missing, prev, next)) =
      inr ((other, missing), prev, next)

  reals-extra :
      (it : Item F) (its : List (Item F)) → is_extra it ≡ true → reals (it ∷ its) ≡ reals its
  unfolding reals
  reals-extra it its extra = rw (extra, if◌then◌else◌) refl

  reals-real :
      (it : Item F) (its : List (Item F)) → is_extra it ≡ false → reals (it ∷ its) ≡ it ∷ reals its
  unfolding reals
  reals-real it its real = rw (real, if◌then◌else◌) refl

  passes_by :
      (seen its : List (Item F)) (it : Item F) (id : ℤ)
      → (not (it.id == id) || is_extra it) ≡ true
      → neighbours_from seen (it ∷ its) id ≡ neighbours_from (it ∷ seen) its id
  unfolding neighbours_from
  passes_by seen its it id h = rw (h, if◌then◌else◌) refl

  stops_at :
      (seen its : List (Item F)) (it : Item F) (id : ℤ)
      → (it.id == id) ≡ true
      → is_extra it ≡ false
      → neighbours_from seen (it ∷ its) id ≡ (first (reals seen), first (reals its))
  unfolding neighbours_from
  stops_at seen its it id same real =
      rw (same, real, if◌then◌else◌) (λ i. (first_real-reals seen i, first_real-reals its i))

  not_id : (it : Item F) (id : ℤ) → (it.id == id) ≡ false → it.id ≢ id
  not_id it id other e = ground (arith, (int_beq_iff it.id id).1 e)

  neighbours_from-Beside :
      (seen its : List (Item F)) (id : ℤ)
      → Beside (reals seen) (reals its) id (neighbours_from seen its id)
  neighbours_from-Beside seen [] id = unfold neighbours_from reals in inr (tt, refl, refl)
  neighbours_from-Beside seen (it ∷ its) id =
      let later = neighbours_from-Beside (it ∷ seen) its id in
      elim (Bool-cases (is_extra it)) [
        | inl extra ↦
            rw (reals-extra it its extra, passes_by seen its it id (ground arith))
              (rw (← reals-extra it seen extra) later)
        | inr real ↦ elim (Bool-cases (it.id == id)) [
          | inl same ↦
              rw (reals-real it its real, stops_at seen its it id same real)
                (inl (
                  record {
                    before = [];
                    member = it;
                    behind = reals its;
                    split = refl;
                    is = (int_beq_iff it.id id).0 same;
                    others = tt;
                  },
                  refl,
                  refl,
                ))
          | inr other ↦
              rw (reals-real it its real, passes_by seen its it id (ground arith))
                (step_past (reals seen) (reals its) it id _ (not_id it id other)
                  (rw (← reals-real it seen real) later))
        ]
      ]

  -- The neighbours of an id are what stands next to it among the members that are no bonus material; an id of none of these has no neighbours.
  pub neighbours-Beside :
      (its : List (Item F)) (id : ℤ) → Beside [] (reals its) id (neighbours its id)
  unfolding neighbours reals
  neighbours-Beside its id = neighbours_from-Beside [] its id
