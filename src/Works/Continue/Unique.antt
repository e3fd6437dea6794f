-- ===== src/Works/Continue/Unique.antt =====
-- How many entries the resume list of internal/works/progress.go has, and of which works.
use flickr.Base.{
  ℕ, zero, suc, ◌≤◌, int_eq, false, not, some, List, [], ◌∷◌, ◌≡◌, refl, sym, subst, ◌∙◌, inl, inr,
  Bytes, bytes_eq, bytes_beq_iff, ◌==◌, if◌then◌else◌, if_cases, take, Bool-cases, Option-cases,
  arith,
}
use mathlib.Core.Bool.{true≢false}
use flickr.Base.Float.{Floats}
use flickr.Base.Sort.{total, count, sort_by, total-sort_by}
use flickr.Works.Work.{Work}
use flickr.Works.Build.{Keyed, find, by_item}
use flickr.Works.Place.{Position, resumable}
use flickr.Works.Continue.{
  ContinueEntry, Latest, put, put_work, note_position, note_positions, no_positions, entry_for,
  entry_of, entries_of, more_recent, continue_list,
}
use flickr.Works.Continue.Resume.{OnEntry, entry_of-cases}

differ_sym : (a b : Bytes) → (a == b) ≡ false → (b == a) ≡ false
differ_sym a b h = elim (Bool-cases (b == a)) [
  | inl same ↦
      absurd (true≢false ((sym ((bytes_beq_iff a b).1 (sym ((bytes_beq_iff b a).0 same)))) ∙ h))
  | inr other ↦ other
]

-- How many entries of a map have a key.
abbrev at_key : {V : Type 0} → Bytes → Keyed V → ℕ
at_key k = total (λ kv. if kv.0 == k then 1 else 0)

module _ {V : Type 0} where
  at_key-put_other :
      (j k : Bytes) (v : V) (vs : Keyed V) → (k == j) ≡ false → at_key j (put k v vs) ≡ at_key j vs
  unfolding put
  at_key-put_other j k v [] other = rw (other, if◌then◌else◌) refl
  at_key-put_other j k v ((i, u) ∷ vs) other = elim (Bool-cases (i == k)) [
    | inl same ↦
        rw (same, if◌then◌else◌) (rw ((bytes_beq_iff i k).0 same, other, if◌then◌else◌) refl)
    | inr next ↦ rw (next, if◌then◌else◌) (omega (arith, at_key-put_other j k v vs other))
  ]

  -- A key that was there at most once is so after another is put.
  at_key-put : (j k : Bytes) (v : V) (vs : Keyed V) → at_key j vs ≤ 1 → at_key j (put k v vs) ≤ 1
  unfolding put
  at_key-put j k v [] h = ground arith
  at_key-put j k v ((i, u) ∷ vs) h = elim (Bool-cases (i == k)) [
    | inl same ↦ rw (same, if◌then◌else◌) (rw (← (bytes_beq_iff i k).0 same) h)
    | inr next ↦ elim (Bool-cases (i == j)) [
      | inl here ↦
          let other = differ_sym j k (rw ((bytes_beq_iff i j).0 here) at next) in
          rw (next, if◌then◌else◌) (omega (arith, at_key-put_other j k v vs other, h))
      | inr other ↦
          rw (next, other, if◌then◌else◌)
            (omega (arith, at_key-put j k v vs (omega (arith, rw (other, if◌then◌else◌) at h))))
    ]
  ]

total-take : {A : Type 0} (f : A → ℕ) (n : ℕ) (xs : List A) → total f (take n xs) ≤ total f xs
total-take f zero xs = omega arith
total-take f (suc n) [] = omega arith
total-take f (suc n) (x ∷ xs) = omega (arith, total-take f n xs)

module _ (fl : Floats) where
  at_key-put_work :
      (j k : Bytes) (p : Position fl.Float) (m : Keyed (Position fl.Float))
      → at_key j m ≤ 1
      → at_key j (put_work fl k p m) ≤ 1
  unfolding put_work
  at_key-put_work j k p m h = elim (Option-cases (find k m)) [
    | inl free ↦ rw (free, put_work) (at_key-put j k p m h)
    | inr (prev, there) ↦
        rw (there, put_work)
          (if_cases (λ (m' : Keyed (Position fl.Float)). at_key j m' ≤ 1)
            (fl.le p.updated_at prev.updated_at) _ _ h (at_key-put j k p m h))
  ]

  at_key-note_position :
      (j : Bytes) (ws : List (Work fl.Float)) (p : Position fl.Float) (l : Latest fl)
      → at_key j l.of_work ≤ 1
      → at_key j (note_position fl ws p l).of_work ≤ 1
  unfolding note_position put_work
  at_key-note_position j ws p l h =
      if_cases (λ (l' : Latest fl). at_key j l'.of_work ≤ 1) (not (resumable fl p)) _ _ h
        (elim (Option-cases (by_item ws p.item_id)) [
          | inl gone ↦ rw gone h
          | inr (w, there) ↦ rw there (at_key-put_work j w.key p l.of_work h)
        ])

  at_key-note_positions :
      (j : Bytes) (ws : List (Work fl.Float)) (ps : List (Position fl.Float)) (l : Latest fl)
      → at_key j l.of_work ≤ 1
      → at_key j (note_positions fl ws ps l).of_work ≤ 1
  unfolding note_positions
  at_key-note_positions j ws [] l h = h
  at_key-note_positions j ws (p ∷ ps) l h =
      at_key-note_positions j ws ps _ (at_key-note_position j ws p l h)

  -- An entry is of the work whose position it stands for.
  entry_of-work_key :
      (ws : List (Work fl.Float)) (l : Latest fl) (k : Bytes) (p : Position fl.Float)
      (e : ContinueEntry fl.Float)
      → entry_of fl ws l (k, p) ≡ some e
      → e.work_key ≡ k
  unfolding entry_for
  entry_of-work_key ws l k p e there = subst (OnEntry fl (λ e. e.work_key ≡ k)) there (
      entry_of-cases fl (λ e. e.work_key ≡ k) ws l k p (λ w it f h. refl) (λ w it h. refl)
        (λ w next. refl))

  of_key-entries_of :
      (j : Bytes) (ws : List (Work fl.Float)) (l : Latest fl) (m : Keyed (Position fl.Float))
      → count (λ e. e.work_key == j) (entries_of fl ws l m) ≤ at_key j m
  unfolding entries_of
  of_key-entries_of j ws l [] = omega arith
  of_key-entries_of j ws l ((k, p) ∷ m) = elim (Option-cases (entry_of fl ws l (k, p))) [
    | inl gone ↦ rw (gone, entries_of) (omega (arith, of_key-entries_of j ws l m))
    | inr (e, there) ↦
        rw (there, entries_of)
          (rw (entry_of-work_key ws l k p e there) (omega (arith, of_key-entries_of j ws l m)))
  ]

  -- A work has at most one entry.
  pub count-continue_list :
      (ws : List (Work fl.Float)) (ps : List (Position fl.Float)) (max : ℕ) (key : Bytes)
      → count (λ e. e.work_key == key) (continue_list fl ws ps max) ≤ 1
  unfolding continue_list
  count-continue_list ws ps max key =
      let l = note_positions fl ws ps (no_positions fl) in
      let es = entries_of fl ws l l.of_work in
      let one : ContinueEntry fl.Float → ℕ = λ e. if e.work_key == key then 1 else 0 in
      omega (
        arith,
        total-take one max (sort_by (more_recent fl) es),
        total-sort_by (more_recent fl) one es,
        of_key-entries_of key ws l l.of_work,
        at_key-note_positions key ws ps (no_positions fl) (omega arith),
      )
