-- ===== src/Passage/Place/Tests.antt =====
-- Locators of internal/passage/passage_test.go, and the theorems at them.
use flickr.Base.{
  ℕ, ℤ, pos, Option, none, some, [], ◌≡◌, refl, ◌≢◌, Bytes, str, bytes_beq, bytes_eq, ne_by_test,
  arith, cut_prefix, cut_byte, value, int_beq, le_int, min_int, int_eq,
}
use flickr.Base.Trim.{trim_space}
use flickr.Base.Whole.{whole, whole_parse}
use flickr.Passage.Numbers.{all_digits}
use flickr.Passage.Episode.{skip_blank, take_digits}
use flickr.Passage.Place.{
  Locator, ends_group, is_cfi, is_count, atoi, is_decimals, all_of, is_fraction, to_lower,
  digits_run, itemref, spine_step, section_from_cfi, zero_float, by_cfi, by_count, by_fraction,
  parse_kind, parse_locator, string, proportion, section_number, page_number, clamp, section, page,
}
use flickr.Passage.Place.Canonical.{parse_locator-canonical}
use flickr.Model.Cfi
use flickr.Passage.Place.Mirror.{TwoSteps, section_from_cfi-TwoSteps}

abbrev locator : Bytes → Bytes → ℤ → ℕ → Locator ℕ
locator kind cfi n f = record { kind = kind; cfi = cfi; n = n; f = f }

-- Opens what ParseLocator calls.
opened : Bytes → Option (Locator ℕ)
unfolding trim_space ends_group is_cfi is_count atoi is_decimals all_of is_fraction to_lower
    digits_run itemref spine_step section_from_cfi zero_float by_cfi by_count by_fraction parse_kind
    parse_locator string proportion section_number page_number clamp section page str bytes_beq
    cut_prefix cut_byte value all_digits skip_blank take_digits whole_parse int_beq le_int min_int
opened = parse_locator whole

reads_kind_in_any_case :
    parse_locator whole (str " CH:12 ") ≡ some (locator (str "ch") [] (pos 12) 0)
unfolding opened
reads_kind_in_any_case = refl

reads_bare_cfi :
    parse_locator whole (str "epubcfi(/6/14!/4/2)")
    ≡ some (locator (str "cfi") (str "epubcfi(/6/14!/4/2)") (pos 0) 0)
unfolding opened
reads_bare_cfi = refl

rejects_zero : parse_locator whole (str "ch:0") ≡ none
unfolding opened
rejects_zero = refl

rejects_percentage : parse_locator whole (str "pct:1.5") ≡ none
unfolding opened
rejects_percentage = refl

section_of_cfi : section_from_cfi (str "epubcfi(/6/14!/4/2)") ≡ 7
unfolding opened
section_of_cfi = refl

last_section : section whole (some (locator (str "pct") [] (pos 0) 1)) (pos 9) ≡ pos 9
unfolding opened
last_section = refl

ch_is_no_pct : str "ch" ≢ str "pct"
unfolding str bytes_beq
ch_is_no_pct = ne_by_test refl

parse_locator-canonical_example :
    parse_locator whole (string whole (some (locator (str "ch") [] (pos 12) 0)))
    ≡ some (locator (str "ch") [] (pos 12) 0)
parse_locator-canonical_example =
    parse_locator-canonical whole (str " CH:12 ") (locator (str "ch") [] (pos 12) 0)
      reads_kind_in_any_case (λ e. absurd (ch_is_no_pct e))

abbrev start_of_book : Bytes
start_of_book = str "epubcfi(/6/14!/4/2)"

start-TwoSteps : TwoSteps start_of_book
unfolding str value bytes_beq
start-TwoSteps = record {
  first = str "6";
  second = str "14";
  behind = str "!/4/2)";
  spelled = refl;
  digits = (omega arith, omega arith);
  named = (ne_by_test refl, ne_by_test refl);
  ends = (refl, (str "!/4/2", b')', refl, omega arith));
  fits = omega arith;
}

section_from_cfi-TwoSteps_example :
    section_from_cfi start_of_book ≡ Cfi.section_from_cfi start_of_book
section_from_cfi-TwoSteps_example = section_from_cfi-TwoSteps start_of_book start-TwoSteps

-- A first step that is no number is read by the model and not by the passage.
model_reads_any_first_step : Cfi.section_from_cfi (str "epubcfi(/x/4)") ≡ 2
unfolding opened Cfi.section_from_cfi Cfi.in_package Cfi.spine_step Cfi.spine_digits Cfi.even_step
model_reads_any_first_step = refl

passage_reads_digits : section_from_cfi (str "epubcfi(/x/4)") ≡ 0
unfolding opened
passage_reads_digits = refl
