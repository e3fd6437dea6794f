-- ===== src/Works/Work/Ordered.antt =====
-- The order of a work's members in internal/works/works.go: what finish sorts by is a strict weak
-- order, so that its sort is a sort, and it is the order that the identities say.
use flickr.Base.{
  Option, none, some, str, subst, sym, ◌∙◌, ℤ, pos, int_eq, arith, lt_int, Bool, true, false, ◌||◌,
  ◌≡◌, refl, Bytes, bytes_eq, bytes_beq, ◌==◌, bool_eq, if◌then◌else◌,
}
use flickr.Base.Sort.{bytes_lt, IsOrder, sort_by-IsSorted}
use flickr.Base.Order.{
  by_key_then, by_key_then-IsOrder, IsOrder-same, lt_bool, lt_bool-IsStrict, zero_last,
  zero_last-IsStrict, lt_int-IsStrict, bytes_lt-IsStrict,
}
use flickr.Base.Turn.{
  unnumbered, criterion, AllInOrder, Tied, InTurn, IsSorted-AllInOrder, last-InTurn,
  by_key_then-InTurn,
}
use flickr.Model.{Identity}
use flickr.Works.Items.{Item, kind, is_extra}
use flickr.Works.Work.{Work, finish, member_less, season_episode, ordinal}
use flickr.Works.Work.Finished.{finish-items}

last_extra : (a b : Bool) → (a == b) ≡ false → b ≡ lt_bool a b
last_extra a b h = ground arith

-- Where a member stands, as its identity says: what has no identity is an episode without numbers.
abbrev is_part : Bytes → Bool
is_part kind = kind == str "audiobook_part" || kind == str "track"

abbrev pub is_bonus : Option Identity → Bool
is_bonus none = false
is_bonus (some id) = id.kind == str "extra"

abbrev pub season_of : Option Identity → ℤ
season_of none = pos 0
season_of (some id) = if is_part id.kind then pos 0 else id.season

abbrev pub number_of : Option Identity → ℤ
number_of none = pos 0
number_of (some id) = if is_part id.kind then id.part else id.episode

-- The identity's word for it.
abbrev kind_of : Option Identity → Bytes
kind_of o = elim o [ none ↦ str "unknown" | some id ↦ id.kind ]

first_of : (c : Bool) (a b : ℤ × ℤ) → (if c then a else b).0 ≡ (if c then a.0 else b.0)
first_of true a b = refl
first_of false a b = refl

second_of : (c : Bool) (a b : ℤ × ℤ) → (if c then a else b).1 ≡ (if c then a.1 else b.1)
second_of true a b = refl
second_of false a b = refl

bonus_of : (o : Option Identity) → (kind_of o == str "extra") ≡ is_bonus o
unfolding str bytes_beq
bonus_of none = refl
bonus_of (some id) = refl

-- The two places where an identity has its numbers.
abbrev numbers : Option Identity → ℤ × ℤ
numbers o =
    if is_part (kind_of o)
    then elim o [ none ↦ (pos 0, pos 0) | some id ↦ (pos 0, id.part) ]
    else elim o [ none ↦ (pos 0, pos 0) | some id ↦ (id.season, id.episode) ]

season_numbers : (o : Option Identity) → (numbers o).0 ≡ season_of o
unfolding str bytes_beq
season_numbers none = refl
season_numbers (some id) = first_of (is_part id.kind) _ _

number_numbers : (o : Option Identity) → (numbers o).1 ≡ number_of o
unfolding str bytes_beq
number_numbers none = refl
number_numbers (some id) = second_of (is_part id.kind) _ _

module _ {F : Type 0} where
  -- Bonus material last; then the season, the episode or part, the object key, the id.
  by_id : Item F → Item F → Bool
  by_id a b = lt_int a.id b.id

  unfoldable reading : Item F → Item F → Bool
  unfolding by_id
  reading = by_key_then is_extra lt_bool (
      by_key_then (λ it. (ordinal it).0) lt_int
        (by_key_then (λ it. (ordinal it).1) zero_last
          (by_key_then (λ it. it.object_key) bytes_lt by_id)))

  by_id-IsOrder : IsOrder by_id
  unfolding by_id
  by_id-IsOrder = record {
    asymmetric = λ a b. lt_int-IsStrict.asym a.id b.id;
    negated_trans = λ a b c. lt_int-IsStrict.negated a.id b.id c.id;
  }

  reading-IsOrder : IsOrder reading
  unfolding reading
  reading-IsOrder = by_key_then-IsOrder is_extra _ _ lt_bool-IsStrict (
      by_key_then-IsOrder (λ it. (ordinal it).0) _ _ lt_int-IsStrict
        (by_key_then-IsOrder (λ it. (ordinal it).1) _ _ zero_last-IsStrict
          (by_key_then-IsOrder (λ it. it.object_key) _ _ bytes_lt-IsStrict by_id-IsOrder)))

  member_less-reading : (a b : Item F) → member_less a b ≡ reading a b
  unfolding member_less reading
  member_less-reading a b =
      criterion (is_extra a == is_extra b) _ _ _ _ (λ h. last_extra (is_extra a) (is_extra b) h)
        (criterion ((ordinal a).0 == (ordinal b).0) _ _ _ _ (λ h. refl)
          (criterion ((ordinal a).1 == (ordinal b).1) _ _ _ _
            (λ h. unnumbered (ordinal a).1 (ordinal b).1 h)
            (criterion (a.object_key == b.object_key) _ _ _ _ (λ h. refl) refl)))

  -- A strict weak order: no two members are each before the other, and being no later is
  -- transitive.
  member_less-IsOrder : IsOrder (member_less {F = F})
  member_less-IsOrder = IsOrder-same reading member_less member_less-reading reading-IsOrder

  -- By a bonus flag, a season and a number, with 0 behind the others, then by object key and id.
  abbrev Placed : (Item F → Bool) → (Item F → ℤ) → (Item F → ℤ) → Item F → Item F → Type 0
  Placed bonus season number = InTurn bonus lt_bool (
      InTurn season lt_int (
        InTurn number zero_last
          (InTurn (λ it. it.object_key) bytes_lt (InTurn (λ it. it.id) lt_int Tied))))

  -- Bonus material is last; then the season, the episode or part, the object key and the id decide.
  abbrev pub MemberOrder : Item F → Item F → Type 0
  MemberOrder =
      Placed (λ it. is_bonus it.identity) (λ it. season_of it.identity)
        (λ it. number_of it.identity)

  bonus : (it : Item F) → is_extra it ≡ is_bonus it.identity
  unfolding is_extra kind
  bonus it = bonus_of it.identity

  season : (it : Item F) → (ordinal it).0 ≡ season_of it.identity
  unfolding ordinal season_episode kind
  season it = season_numbers it.identity

  number : (it : Item F) → (ordinal it).1 ≡ number_of it.identity
  unfolding ordinal season_episode kind
  number it = number_numbers it.identity

  reading-Placed :
      (x y : Item F)
      → reading y x ≡ false
      → Placed is_extra (λ it. (ordinal it).0) (λ it. (ordinal it).1) x y
  unfolding reading by_id
  reading-Placed = by_key_then-InTurn is_extra lt_bool lt_bool-IsStrict _ _ (
      by_key_then-InTurn (λ it. (ordinal it).0) lt_int lt_int-IsStrict _ _
        (by_key_then-InTurn (λ it. (ordinal it).1) zero_last zero_last-IsStrict _ _
          (by_key_then-InTurn (λ it. it.object_key) bytes_lt bytes_lt-IsStrict _ _
            (last-InTurn (λ it. it.id) lt_int lt_int-IsStrict))))

  member_less-MemberOrder : (x y : Item F) → member_less y x ≡ false → MemberOrder x y
  member_less-MemberOrder x y h =
      subst (λ T. T) (λ i. Placed (λ it. bonus it i) (λ it. season it i) (λ it. number it i) x y)
        (reading-Placed x y (sym (member_less-reading y x) ∙ h))

  pub finish-MemberOrder :
      (lower : Bytes → Bytes) (w : Work F) → AllInOrder MemberOrder (finish lower w).items
  finish-MemberOrder lower w = rw (finish-items lower w) (
      IsSorted-AllInOrder member_less MemberOrder _ member_less-MemberOrder
        (sort_by-IsSorted member_less member_less-IsOrder w.items))
