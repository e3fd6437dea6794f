-- ===== src/Passage/Episode/Tests.antt =====
-- A show of internal/passage/passage_test.go, and the theorems at it.
use flickr.Base.{
  show_02_int, ℕ, pos, Option, none, some, List, [], ◌∷◌, ◌≡◌, refl, ◌↔◌, Bytes, str, bytes_beq,
  bytes_eq, int_eq, int_beq, arith, value, show, show_02,
}
use flickr.Passage.{Passage}
use flickr.Passage.Episode.{
  Episode, string, Member, resolved, refused, no_end, parse_episode_code, find_episode, is_episode,
  resolve_show, resolve_run, run_end, item_form, ep_of, skip_blank, take_digits, after_letter,
  some_digits, at_end,
}
use flickr.Passage.Episode.Code.{Spells, parse_episode_code-Spells, parse_episode_code-string}
use flickr.Passage.Episode.Resolve.{Outcome, resolve_show-Outcome}

abbrev episode : ℕ → ℕ → Episode
episode season number = record { season = pos season; number = pos number }

abbrev member : ℕ → Bytes → ℕ → ℕ → Member
member id kind season number = record {
  id = pos id;
  kind = kind;
  season = pos season;
  episode = pos number;
}

-- An extra stands before the episode that it is named after.
abbrev show_1899 : List Member
show_1899 =
    member 60 (str "extra") 2 5
    ∷ member 51 (str "episode") 2 5
    ∷ member 52 [] 2 6
    ∷ member 54 (str "episode") 2 7
    ∷ []

abbrev run : Bytes → Passage ℕ
run until = record {
  t = some 90;
  end = none;
  until = none;
  until_ep = until;
  ep = str " s2e5";
  from = [];
  to = [];
}

-- Opens what a resolution calls.
opened : Bytes → Option Episode
unfolding parse_episode_code skip_blank take_digits after_letter some_digits at_end value str
    bytes_beq int_beq find_episode is_episode resolve_show resolve_run run_end item_form ep_of
    string show_02 show
opened = parse_episode_code

spaced_code : parse_episode_code (str " S02E0005\n") ≡ some (episode 2 5)
unfolding opened show_02_int
spaced_code = refl

long_code : parse_episode_code (str "s0002e5") ≡ none
unfolding opened show_02_int
long_code = refl

skips_extra : find_episode show_1899 (episode 2 5) ≡ some (member 51 (str "episode") 2 5)
unfolding opened show_02_int
skips_extra = refl

runs_to_id :
    resolve_show (some (run (str "S02E07"))) show_1899
    ≡ resolved (member 51 (str "episode") 2 5) (record (run []) { until = some (pos 54); ep = [] })
unfolding opened show_02_int
runs_to_id = refl

-- A run whose end names no episode is refused, not shortened.
runs_nowhere : resolve_show (some (run (str "s2e9"))) show_1899 ≡ refused (no_end (str "S02E09"))
unfolding opened show_02_int
runs_nowhere = refl

parse_episode_code-Spells_example :
    (parse_episode_code (str "s2e5") ≡ some (episode 2 5)) ↔ Spells (str "s2e5") (episode 2 5)
parse_episode_code-Spells_example = parse_episode_code-Spells (str "s2e5") (episode 2 5)

parse_episode_code-string_example :
    parse_episode_code (string (episode 2 105)) ≡ some (episode 2 105)
parse_episode_code-string_example =
    parse_episode_code-string (episode 2 105) ((2, omega arith, refl), (105, omega arith, refl))

resolve_show-Outcome_example :
    Outcome
      (some (run (str "S02E07")))
      show_1899
      (resolve_show (some (run (str "S02E07"))) show_1899)
resolve_show-Outcome_example = resolve_show-Outcome (some (run (str "S02E07"))) show_1899
