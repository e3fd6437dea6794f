-- ===== src/Passage/Episode.antt =====
-- The episode codes of internal/passage/passage.go and ResolveShow, which turns a passage that names a
-- show and an episode into one that names an item.
pub mod Scan
pub mod Code
pub mod Resolve
mod Tests
use flickr.Base.{
  ℕ, zero, suc, ℤ, pos, negsuc, int_eq, int_beq, Bool, true, false, not, ◌&&◌, ◌||◌, Option, none,
  some, List, [], ◌∷◌, ◌++◌, Bytes, str, bytes_eq, ◌==◌, nat_eq, if◌then◌else◌, ◌>>=◌, is_digit,
  is_empty, show_02_int, show_int, value, ◌⊎◌, inl, inr,
}
use flickr.Passage.{Passage}

pub record Episode : Type 0 where
  pub season : ℤ
  pub number : ℤ

-- "S%02dE%02d"
unfoldable pub string : Episode → Bytes
string e = b'S' ∷ (show_02_int e.season ++ b'E' ∷ show_02_int e.number)

-- \s of the regexp package.
abbrev pub is_blank : ℕ → Bool
is_blank c = c == 32 || c == 9 || c == 10 || c == 12 || c == 13

unfoldable pub skip_blank : Bytes → Bytes
skip_blank [] = []
skip_blank (c ∷ s) = let rest = skip_blank s in if is_blank c then rest else c ∷ s

-- At most `n` digits, and what stands behind them.
unfoldable pub take_digits : ℕ → Bytes → Bytes × Bytes
take_digits zero s = ([], s)
take_digits (suc n) [] = ([], [])
take_digits (suc n) (c ∷ s) =
    let (ds, rest) = take_digits n s in if is_digit c then (c ∷ ds, rest) else ([], c ∷ s)

-- A letter in either case.
unfoldable pub after_letter : ℕ → ℕ → Bytes → Option Bytes
after_letter lower upper [] = none
after_letter lower upper (c ∷ s) = if c == lower || c == upper then some s else none

-- \d{1,n}
unfoldable pub some_digits : ℕ → Bytes → Option (Bytes × Bytes)
some_digits n s = let (ds, rest) = take_digits n s in if is_empty ds then none else some (ds, rest)

-- \s*$
unfoldable pub at_end : Bytes → Bool
at_end s = is_empty (skip_blank s)

-- ^\s*[sS](\d{1,3})[eE](\d{1,4})\s*$
unfoldable pub parse_episode_code : Bytes → Option Episode
parse_episode_code s = after_letter b's' b'S' (skip_blank s) >>= λ s.
    some_digits 3 s >>= λ (season, s). after_letter b'e' b'E' s >>= λ s.
    some_digits 4 s >>= λ (number, s).
    if at_end s
    then some (record { season = pos (value 0 season); number = pos (value 0 number) })
    else none

-- A member of a show as the resolver sees it.
pub record Member : Type 0 where
  pub id : ℤ
  pub kind : Bytes
  pub season : ℤ
  pub episode : ℤ

-- Bonus material that is named after an episode is not that episode.
unfoldable pub is_episode : Episode → Member → Bool
is_episode e m =
    if not (m.kind == []) && not (m.kind == str "episode")
    then false
    else m.season == e.season && m.episode == e.number

unfoldable pub find_episode : List Member → Episode → Option Member
unfolding is_episode
find_episode [] e = none
find_episode (m ∷ ms) e = let rest = find_episode ms e in if is_episode e m then some m else rest

pub data Refusal : Type 0 where
  not_a_code : Bytes → Refusal
  no_episode : Episode → Refusal
  no_end : Bytes → Refusal

-- The sentence for a person to read; `quote` is fmt's %q.
unfoldable pub sentence : (Bytes → Bytes) → Refusal → Bytes
sentence quote (not_a_code ep) = quote ep ++ str " is not an episode code like S02E05."
sentence quote (no_episode e) = str "This show has no episode " ++ string e ++ str "."
sentence quote (no_end named) = str "This show has no episode " ++ named ++ str " to run until."

-- What ResolveShow comes to: a nil passage that it reads a field of would be a panic.
pub data Resolution (F : Type 0) : Type 0 where
  resolved : Member → Passage F → Resolution F
  refused : Refusal → Resolution F
  panicked : Resolution F

-- The run's end by its code: an id, or the text that names no episode.
unfoldable pub run_end : List Member → Bytes → ℤ ⊎ Bytes
run_end members code = elim (parse_episode_code code) [
  | none ↦ inr code
  | some w ↦ elim (find_episode members w) [ none ↦ inr (string w) | some u ↦ inl u.id ]
]

module _ {F : Type 0} where
  unfoldable pub ep_of : Option (Passage F) → Bytes
  ep_of none = []
  ep_of (some p) = p.ep

  unfoldable pub item_form : Passage F → Option ℤ → Passage F
  item_form p until = record p { until = until; until_ep = []; ep = [] }

  unfoldable pub resolve_run : List Member → Member → Option (Passage F) → Resolution F
  resolve_run members item none = panicked
  resolve_run members item (some p) =
      if is_empty p.until_ep
      then resolved item (item_form p p.until)
      else elim (run_end members p.until_ep) [
        | inl id ↦ resolved item (item_form p (some id))
        | inr named ↦ refused (no_end named)
      ]

  unfoldable pub resolve_show : Option (Passage F) → List Member → Resolution F
  unfolding run_end item_form resolve_run
  resolve_show p members = elim (parse_episode_code (ep_of p)) [
    | none ↦ refused (not_a_code (ep_of p))
    | some want ↦ elim (find_episode members want) [
      | none ↦ refused (no_episode want)
      | some item ↦ resolve_run members item p
    ]
  ]
