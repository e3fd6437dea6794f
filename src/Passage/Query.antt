-- ===== src/Passage/Query.antt =====
-- A passage that is written as a query reads back as itself.
mod Joined
mod Entries
pub mod Sound
use flickr.Base.{
  ℕ, ℤ, pos, negsuc, show_int, Bool, true, false, not, ◌&&◌, Option, none, some, List, [], ◌∷◌,
  ◌++◌, ◌≡◌, refl, ◌≢◌, ◌≤◌, ap, ap₂, ◌∙◌, ◌⊎◌, inl, inr, Bytes, str, bytes_beq, join, show,
  show-digits, show-ne-nil, ◌==◌, nat_eq, bytes_eq, if◌then◌else◌, is_some, is_empty, map, All,
  All-append, All-map, arith, Bool-cases, IsDigit, length, sym, ne_by_test,
}
use mathlib.Core.List.{map-append, append-nil}
use flickr.Base.Float.{Floats}
use flickr.Passage.Escape.{
  escape_component, escape_component-IsPlain, unescape, plain, IsByte, IsPlain,
  unescape-escape_component, IsLiteral, unescape-literal,
}
use flickr.Passage.Values.{QueryValues, parse_query, get}
use flickr.Passage.Values.RoundTrip.{
  Entry, Encodes, Lacks, cut_byte_first, part, meaning, parse_query-join, is_empty-join,
}
use Entries.{
  entries, number_entry, text_entry, until_entry, number_or, text_or, until_or, get-t, get-end,
  get-until, get-ep, get-from, get-to, parts-entries,
}
use Joined.{
  is_empty-show, is_empty-append, and_assoc, is_empty-join-map, trim_question-join, split-append,
}
use Sound.{IsSeconds, AllOf, Ordered, Runs, IsSound, entries-Encodes}
use flickr.Passage.Numbers.{
  max_int64, parse_item_id, parse_item_id-show, parse_seconds, matches_seconds, parse_seconds-bytes,
  IsSecondsByte,
}
use flickr.Passage.{
  Passage, parse, query, parts, of_values, until_id, until_code, non_empty, empty, bound,
  seconds_part, text_part, until_part, trim_question, split,
}

module _ (fl : Floats) where
  open fl use {Float, le, format}

  parse_seconds-number_or :
      (o : Option Float) → AllOf fl o → parse_seconds fl (number_or fl o []) ≡ o
  unfolding number_or
  parse_seconds-number_or none h = unfold parse_seconds matches_seconds in refl
  parse_seconds-number_or (some v) h = h

  bound-Ordered : (t end : Option Float) → Ordered fl t end → bound fl t end ≡ end
  unfolding bound
  bound-Ordered none end h = refl
  bound-Ordered (some t) none h = refl
  bound-Ordered (some t) (some end) h = rw (h, if◌then◌else◌)

  until_id-until_or :
      (o : Option ℤ) (code : Bytes)
      → Runs fl o code
      → parse_item_id code ≡ none
      → (until_id fl (until_or fl o code []) ≡ o) × (until_code fl (until_or fl o code []) ≡ code)
  unfolding until_id until_code until_or text_or show_int
  until_id-until_or none [] h e = (refl, refl)
  until_id-until_or none (c ∷ s) h e = (e, rw (e, if◌then◌else◌))
  until_id-until_or (some (negsuc n)) code h e = absurd h
  until_id-until_or (some (pos n)) code (fits, none_as_code) e =
      let reads = parse_item_id-show n fits in
      (rw (is_empty-show n, if◌then◌else◌, reads), rw (reads, none_as_code, is_empty-show n))

  -- What a sound passage is written as reads back as the passage.
  of_values-entries :
      (p : Passage Float) → IsSound fl p → of_values fl (map meaning (entries fl p)) ≡ p
  unfolding of_values
  of_values-entries p h =
      let (same_id, same_code) = until_id-until_or p.until p.until_ep h.until h.until_ep.0 in
      λ i. record {
        t = (ap (parse_seconds fl) (get-t fl p) ∙ parse_seconds-number_or p.t h.t) i;
        end =
            (ap₂ (bound fl) (ap (parse_seconds fl) (get-t fl p) ∙ parse_seconds-number_or p.t h.t)
                  (ap (parse_seconds fl) (get-end fl p) ∙ parse_seconds-number_or p.end h.end)
                ∙ bound-Ordered p.t p.end h.order)
              i;
        until = (ap (until_id fl) (get-until fl p) ∙ same_id) i;
        until_ep = (ap (until_code fl) (get-until fl p) ∙ same_code) i;
        ep = get-ep fl p i;
        from = get-from fl p i;
        to = get-to fl p i;
      }

  is_empty-seconds_part :
      (key : Bytes) (o : Option Float) → is_empty (seconds_part fl key o) ≡ not (is_some o)
  unfolding seconds_part
  is_empty-seconds_part key none = refl
  is_empty-seconds_part key (some v) = refl

  is_empty-text_part : (key v : Bytes) → is_empty (text_part fl key v) ≡ is_empty v
  unfolding text_part
  is_empty-text_part key [] = refl
  is_empty-text_part key (c ∷ s) = refl

  is_empty-until_part :
      (o : Option ℤ) (code : Bytes)
      → is_empty (until_part fl o code) ≡ (not (is_some o) && is_empty code)
  unfolding until_part
  is_empty-until_part none code = is_empty-text_part (str "until") code
  is_empty-until_part (some n) code = refl

  -- A passage is written as nothing exactly where it names nothing.
  is_empty-parts : (p : Passage Float) → is_empty (parts fl p) ≡ empty p
  unfolding parts empty
  is_empty-parts p =
      simp
        (is_empty-append, is_empty-seconds_part, is_empty-text_part, is_empty-until_part, and_assoc)

  written : Passage Float → Bytes
  written p = join (b'&' ∷ []) (map part (entries fl p))

  query-written : (p : Passage Float) → IsSound fl p → query fl (some p) ≡ b'?' ∷ written p
  unfolding query written
  query-written p h = rw (is_empty-parts p ∙ h.names, if◌then◌else◌, parts-entries fl p)

  is_empty-written : (p : Passage Float) → IsSound fl p → is_empty (written p) ≡ false
  unfolding written
  is_empty-written p h =
      is_empty-join-map (entries fl p)
        (sym (ap is_empty (parts-entries fl p)) ∙ is_empty-parts p ∙ h.names)

  read_written :
      (p : Passage Float)
      → IsSound fl p
      → non_empty (of_values fl (parse_query (written p))) ≡ some p
  unfolding written non_empty
  read_written p h = rw (
    parse_query-join (entries fl p) (entries-Encodes fl p h),
    of_values-entries p h,
    h.names,
    if◌then◌else◌,
  )

  -- A sound passage is written as a query that Parse reads back as the same passage.
  pub parse-query : (p : Passage Float) → IsSound fl p → parse fl (query fl (some p)) ≡ some p
  unfolding parse trim_question
  parse-query p h = rw (query-written p h, is_empty-written p h, if◌then◌else◌) (read_written p h)

  trim_question-written : (p : Passage Float) → IsSound fl p → trim_question (written p) ≡ written p
  unfolding written
  trim_question-written p h = trim_question-join (entries fl p) (entries-Encodes fl p h)

  -- A link is a path and the query of a sound passage: it splits into the path and a query that reads back.
  pub split-link :
      (path : Bytes) (p : Passage Float)
      → All (λ c. c ≢ b'?') path
      → IsSound fl p
      → let link = split (path ++ query fl (some p)) in (link.0 ≡ path) × (parse fl link.1 ≡ some p)
  unfolding parse
  split-link path p unmarked h =
      rw (query-written p h, split-append path (written p) unmarked)
        (
          refl,
          rw (trim_question-written p h, is_empty-written p h, if◌then◌else◌) (read_written p h),
        )
