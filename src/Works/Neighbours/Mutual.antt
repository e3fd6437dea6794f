-- ===== src/Works/Neighbours/Mutual.antt =====
-- Going to the next member and back, by Neighbours of internal/works/progress.go.
use flickr.Base.{
  ℤ, Option, some, List, [], ◌∷◌, ◌++◌, ◌≡◌, refl, ◌≢◌, inl, inr, ap, ◌∙◌, sym, subst, All,
  some_inj,
}
use mathlib.Core.List.{reverse_aux, head-eq_of_cons-eq, tail-eq_of_cons-eq, append_assoc}
use flickr.Works.Items.{Item}
use flickr.Works.Neighbours.{neighbours, reals, first, Beside, neighbours-Beside}

module _ {F : Type 0} where
  -- No two members have the same id.
  abbrev pub Distinct : List (Item F) → Type 0
  Distinct [] = Unit
  Distinct (it ∷ its) = All (λ m. m.id ≢ it.id) its × Distinct its

  middle :
      (P : Item F → Type 0) (b : List (Item F)) (m : Item F) (c : List (Item F))
      → All P (b ++ m ∷ c)
      → P m
  middle P [] m c (h, _) = h
  middle P (x ∷ b) m c (_, h) = middle P b m c h

  -- Where the ids are distinct, an id stands at one place.
  one_place :
      (xs : List (Item F)) (x : Item F) (ys b : List (Item F)) (m : Item F) (c : List (Item F))
      → Distinct (b ++ m ∷ c)
      → xs ++ x ∷ ys ≡ b ++ m ∷ c
      → x.id ≡ m.id
      → xs ≡ b
  one_place [] x ys [] m c d e same = refl
  one_place [] x ys (b0 ∷ b) m c (d, _) e same =
      absurd (middle _ b m c d (sym same ∙ ap (λ r. r.id) (head-eq_of_cons-eq e)))
  one_place (x0 ∷ xs) x ys [] m c (d, _) e same =
      absurd (middle _ xs x ys (subst (All _) (sym (tail-eq_of_cons-eq e)) d) same)
  one_place (x0 ∷ xs) x ys (b0 ∷ b) m c (_, d) e same =
      λ i. head-eq_of_cons-eq e i ∷ one_place xs x ys b m c d (tail-eq_of_cons-eq e) same i

  first-reverse_aux :
      (b : List (Item F)) (m : Item F) (acc : List (Item F))
      → first (reverse_aux (b ++ m ∷ []) acc) ≡ some m
  first-reverse_aux [] m acc = refl
  first-reverse_aux (x ∷ b) m acc = first-reverse_aux b m (x ∷ acc)

  -- The member before the one that follows.
  back :
      (members : List (Item F)) (before : List (Item F)) (m n : Item F) (behind : List (Item F))
      (r : Option (Item F) × Option (Item F))
      → Distinct members
      → members ≡ before ++ m ∷ n ∷ behind
      → Beside [] members n.id r
      → r.0 ≡ some m
  back members before m n behind r d e (inl (s, prev, next)) =
      let further : members ≡ (before ++ m ∷ []) ++ n ∷ behind =
        e ∙ sym (append_assoc before (m ∷ []) (n ∷ behind)) in
      let place =
        one_place s.before s.member s.behind (before ++ m ∷ []) n behind (subst Distinct further d)
          (sym s.split ∙ further) s.is in
      prev ∙ ap (λ b. first (reverse_aux b [])) place ∙ first-reverse_aux before m []
  back members before m n behind r d e (inr (missing, _, _)) = absurd (
      middle _ (before ++ m ∷ []) n behind
        (subst (All _) (e ∙ sym (append_assoc before (m ∷ []) (n ∷ behind))) missing) refl)

  there :
      (members : List (Item F)) (id : ℤ) (n : Item F) (r : Option (Item F) × Option (Item F))
      → Beside [] members id r
      → r.1 ≡ some n
      → (before : List (Item F)) × (m : Item F) × (behind : List (Item F)) × (m.id ≡ id)
        × (members ≡ before ++ m ∷ n ∷ behind)
  there members id n r (inl (s, prev, next)) h = at_head s.behind s.split (sym next ∙ h)
    where
      at_head :
          (behind : List (Item F))
          → members ≡ s.before ++ s.member ∷ behind
          → first behind ≡ some n
          → (before : List (Item F)) × (m : Item F) × (behind : List (Item F)) × (m.id ≡ id)
            × (members ≡ before ++ m ∷ n ∷ behind)
      at_head [] split h = cc
      at_head (x ∷ rest) split h = (
        s.before,
        s.member,
        rest,
        s.is,
        subst (λ y. members ≡ s.before ++ s.member ∷ y ∷ rest) (some_inj h) split,
      )
  there members id n r (inr (missing, prev, next)) h = cc

  -- Where the ids of a work's members are distinct, the member before the next one is the one that was left.
  pub neighbours-mutual :
      (its : List (Item F)) (id : ℤ) (n : Item F)
      → Distinct (reals its)
      → (neighbours its id).1 ≡ some n
      → (m : Item F) × (m.id ≡ id) × ((neighbours its n.id).0 ≡ some m)
  neighbours-mutual its id n d h =
      let (before, m, behind, is, split) = there (reals its) id n _ (neighbours-Beside its id) h in
      (m, is, back (reals its) before m n behind _ d split (neighbours-Beside its n.id))
