-- ===== src/Passage.antt =====
-- internal/passage/passage.go: the address of a place inside a work. This file has the passage and
-- its query; Episode the episode codes and ResolveShow, Place the text locators.
mod Escape
mod Values
pub mod Numbers
pub mod Query
pub mod Bounds
pub mod Episode
pub mod Place
mod Tests
use flickr.Base.{
  ℕ, ℤ, show_int, Bool, true, false, not, ◌&&◌, ◌||◌, Option, none, some, List, [], ◌∷◌, ◌++◌,
  Bytes, str, join, show, ◌==◌, nat_eq, bytes_eq, if◌then◌else◌, is_some, is_empty, cut_byte,
}
use flickr.Base.Float.{Floats}
use Escape.{escape_component}
use Values.{QueryValues, parse_query, get}
use Numbers.{parse_item_id, parse_seconds}

-- An empty text is an absent field, as the JSON tags say.
pub record Passage (F : Type 0) : Type 0 where
  pub t : Option F
  pub end : Option F
  pub until : Option ℤ
  pub until_ep : Bytes
  pub ep : Bytes
  pub from : Bytes
  pub to : Bytes

-- "#/item/51?t=4740" → "#/item/51", "t=4740"
unfoldable pub split : Bytes → Bytes × Bytes
split hash = elim (cut_byte b'?' hash) [ none ↦ (hash, []) | some parts ↦ parts ]

-- strings.TrimPrefix(query, "?")
unfoldable pub trim_question : Bytes → Bytes
trim_question [] = []
trim_question (c ∷ s) = if c == b'?' then s else c ∷ s

module _ {F : Type 0} where
  unfoldable pub empty : Passage F → Bool
  empty p =
      not (is_some p.t)
      && not (is_some p.end)
      && not (is_some p.until)
      && is_empty p.until_ep
      && is_empty p.ep
      && is_empty p.from
      && is_empty p.to

  -- `nil` for a passage that names nothing.
  unfoldable pub non_empty : Passage F → Option (Passage F)
  non_empty p = if empty p then none else some p

  -- Whether the player is put into passage mode.
  unfoldable pub is_timed : Option (Passage F) → Bool
  is_timed none = false
  is_timed (some p) = is_some p.t || is_some p.end || is_some p.until

  -- Whether the passage says something about the text.
  unfoldable pub is_text : Option (Passage F) → Bool
  is_text none = false
  is_text (some p) = not (is_empty p.from) || not (is_empty p.to)

  abbrev run_only : ℤ → Passage F
  run_only id = record {
    t = none;
    end = none;
    until = some id;
    until_ep = [];
    ep = [];
    from = [];
    to = [];
  }

  -- The passage of the next item of a run.
  unfoldable pub for_next : Option (Passage F) → Option (Passage F)
  for_next none = none
  for_next (some p) = elim p.until [ none ↦ none | some id ↦ some (run_only id) ]

module _ (fl : Floats) where
  open fl use {Float, le, format}

  -- An end at or before the start is no bound.
  unfoldable pub bound : Option Float → Option Float → Option Float
  bound none end = end
  bound (some t) none = none
  bound (some t) (some end) = if le end t then none else some end

  -- `until` is an item id, or an episode code as written.
  until_id : Bytes → Option ℤ
  until_id until = if is_empty until then none else parse_item_id until

  until_code : Bytes → Bytes
  until_code until = if is_empty until || is_some (parse_item_id until) then [] else until

  unfoldable pub of_values : QueryValues → Passage Float
  unfolding until_id until_code
  of_values vals = record {
    t = parse_seconds fl (get (str "t") vals);
    end = bound (parse_seconds fl (get (str "t") vals)) (parse_seconds fl (get (str "end") vals));
    until = until_id (get (str "until") vals);
    until_ep = until_code (get (str "until") vals);
    ep = get (str "ep") vals;
    from = get (str "from") vals;
    to = get (str "to") vals;
  }

  unfoldable pub parse : Bytes → Option (Passage Float)
  unfolding trim_question
  parse query =
      let q = trim_question query in
      if is_empty q then none else non_empty (of_values (parse_query q))

  -- `if p.T != nil { parts = append(parts, "t="+Seconds(*p.T)) }`
  seconds_part : Bytes → Option Float → List Bytes
  seconds_part key none = []
  seconds_part key (some v) = (key ++ b'=' ∷ format v) ∷ []

  text_part : Bytes → Bytes → List Bytes
  text_part key v = if is_empty v then [] else (key ++ b'=' ∷ escape_component v) ∷ []

  until_part : Option ℤ → Bytes → List Bytes
  until_part (some id) code = (str "until" ++ b'=' ∷ show_int id) ∷ []
  until_part none code = text_part (str "until") code

  unfoldable pub parts : Passage Float → List Bytes
  unfolding seconds_part text_part until_part
  parts p =
      seconds_part (str "t") p.t
      ++ (seconds_part (str "end") p.end
          ++ (until_part p.until p.until_ep
              ++ (text_part (str "ep") p.ep
                  ++ (text_part (str "from") p.from ++ text_part (str "to") p.to))))

  unfoldable pub query : Option (Passage Float) → Bytes
  query none = []
  query (some p) = if is_empty (parts p) then [] else b'?' ∷ join (b'&' ∷ []) (parts p)
