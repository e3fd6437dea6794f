-- ===== src/Passage/Tests.antt =====
-- Links of internal/passage/passage_test.go and README.md, and the theorems at them.
use flickr.Base.{
  ℕ, ℤ, pos, Option, none, some, [], ◌++◌, ◌≡◌, refl, Bytes, str, bytes_beq, bytes_eq, arith, show,
  cut_byte, contains, value,
}
use flickr.Base.Whole.{whole, whole_parse}
use flickr.Passage.Escape.{unescape}
use flickr.Passage.Values.{parse_query, get, segments, pair}
use flickr.Passage.Numbers.{parse_item_id, parse_seconds, matches_seconds, is_item_id, all_digits}
use flickr.Passage.{Passage, parse, query, split, of_values, bound, non_empty, empty}
use flickr.Passage.Query.Sound.{IsSound}
use flickr.Passage.Query.{parse-query, split-link}
use flickr.Passage.Bounds.{IsParsed, parse-IsParsed}

-- t=4740, until the code S02E07, from epubcfi(/6/4!/4/2).
abbrev scene : Passage ℕ
scene = record {
  t = some 4740;
  end = some 5070;
  until = none;
  until_ep = str "S02E07";
  ep = str "S02E05";
  from = str "epubcfi(/6/4!/4/2)";
  to = [];
}

-- The texts and the numbers of a passage compute.
opened : Bytes → Option ℤ
unfolding parse_seconds matches_seconds parse_item_id is_item_id all_digits str show empty
    whole_parse value parse non_empty of_values get parse_query segments pair contains unescape
    cut_byte bytes_beq bound
opened v = parse_item_id v

scene-IsSound : IsSound whole scene
unfolding opened
scene-IsSound = record {
  t = refl;
  end = refl;
  order = refl;
  until = tt;
  until_ep = (refl, omega arith);
  ep = omega arith;
  from = omega arith;
  to = tt;
  names = refl;
}

parse-query_example : parse whole (query whole (some scene)) ≡ some scene
parse-query_example = parse-query whole scene scene-IsSound

split-link_example :
    let link = split (str "#/show/1899" ++ query whole (some scene)) in
    (link.0 ≡ str "#/show/1899") × (parse whole link.1 ≡ some scene)
split-link_example =
    split-link whole (str "#/show/1899") scene (unfold str in omega arith) scene-IsSound

-- An end at the start is dropped.
abbrev late_link : Bytes
late_link = str "?t=90&end=79&until=54"

abbrev late : Passage ℕ
late = record {
  t = some 90;
  end = none;
  until = some (pos 54);
  until_ep = [];
  ep = [];
  from = [];
  to = [];
}

parse-late_link : parse whole late_link ≡ some late
unfolding opened
parse-late_link = refl

parse-IsParsed_example : IsParsed whole late
parse-IsParsed_example = parse-IsParsed whole late_link late parse-late_link
