-- ===== src/Works/Tests.antt =====
-- The cursors of internal/works/feed.go, read and written, and a show with its bonus material.
mod Library
mod Standing
use flickr.Base.{none, some, ◌≡◌, refl, ◌↔◌, str, cut_prefix, value, arith}
use flickr.Base.{pos, [], ◌∷◌, List, ℕ, false, Bytes, bytes_eq, bytes_beq, int_beq}
use flickr.Works.Items.{Item, kind, is_extra}
use flickr.Works.Samples.{item}
use flickr.Works.Neighbours.{
  first_real, neighbours_from, neighbours, reals, Beside, neighbours-Beside,
}
use flickr.Works.Neighbours.Mutual.{Distinct, neighbours-mutual}
use flickr.Passage.Numbers.{is_item_id, all_digits}
use flickr.Works.Cursor.{
  Spells, string, cut_state, parse_uint, parse_cursor, parse_cursor-Spells, parse_cursor-string, at,
}

malformed : parse_cursor (str "l1042.388") ≡ none
unfolding parse_cursor cut_state parse_uint is_item_id all_digits cut_prefix value str
malformed = refl

beyond_int64 : parse_cursor (str "l9223372036854775808.s1") ≡ none
unfolding parse_cursor cut_state parse_uint is_item_id all_digits cut_prefix value str
beyond_int64 = refl

parse_cursor-Spells_example :
    (parse_cursor (str "l1042.s388") ≡ some (at 1042 388)) ↔ Spells (str "l1042.s388") (at 1042 388)
parse_cursor-Spells_example = parse_cursor-Spells (str "l1042.s388") (at 1042 388)

parse_cursor-string_example : parse_cursor (string (at 1042 388)) ≡ some (at 1042 388)
parse_cursor-string_example = parse_cursor-string 1042 388 (omega arith) (omega arith)

-- Two episodes, with a featurette between them.
abbrev show_with_extra : List (Item ℕ)
show_with_extra = item 1 (str "episode") ∷ item 2 (str "extra") ∷ item 3 (str "episode") ∷ []

passes_over_extra : neighbours show_with_extra (pos 3) ≡ (some (item 1 (str "episode")), none)
unfolding neighbours neighbours_from first_real kind is_extra str bytes_beq int_beq
passes_over_extra = refl

neighbours-Beside_example :
    Beside [] (reals show_with_extra) (pos 3) (neighbours show_with_extra (pos 3))
neighbours-Beside_example = neighbours-Beside show_with_extra (pos 3)

episodes-Distinct : Distinct (reals show_with_extra)
unfolding reals kind is_extra str bytes_beq
episodes-Distinct = (((λ e. ne_pos e), tt), (tt, tt))
  where
    ne_pos : pos 3 ≡ pos 1 → ⊥
    ne_pos e = cc

next_episode : (neighbours show_with_extra (pos 1)).1 ≡ some (item 3 (str "episode"))
unfolding neighbours neighbours_from first_real kind is_extra str bytes_beq int_beq
next_episode = refl

neighbours-mutual_example :
    (m : Item ℕ) × (m.id ≡ pos 1) × ((neighbours show_with_extra (pos 3)).0 ≡ some m)
neighbours-mutual_example =
    neighbours-mutual show_with_extra (pos 1) (item 3 (str "episode")) episodes-Distinct
      next_episode
