-- ===== src/Passage/Episode/Code.antt =====
-- The episode codes against their regular expression, and their spelling.
use flickr.Base.{
  show_02_int, bind_some, guard_then, ℕ, suc, pos, some, [], ◌∷◌, ◌++◌, ◌≡◌, refl, ◌≢◌, ◌≤◌, ◌<◌,
  ◌↔◌, ◌⊎◌, inl, inr, length, ◌∙◌, ap, sym, Bytes, ltb, show-ne-nil, length-show, ten_to, nat_eq,
  if◌then◌else◌, ◌>>=◌, IsDigit, All, show_02, show-digits, value, value-show, arith, Bool-cases,
}
use flickr.Passage.Episode.Scan.{
  IsBlank, skip_blank-split, some_digits-append, after_letter-either, at_end-blank, blank-Stops,
  after_blanks, no_blank, letter-Stops, after_letter-some, some_digits-some, at_end-true,
}
use mathlib.Core.List.{append-nil}
use flickr.Passage.Episode.{Episode, string, parse_episode_code}

-- What the expression matches: blanks, S, 1 to 3 digits, E, 1 to 4 digits, blanks.
pub record Spells (s : Bytes) (e : Episode) : Type 0 where
  pub before : Bytes
  pub letter_s : ℕ
  pub season : Bytes
  pub letter_e : ℕ
  pub number : Bytes
  pub behind : Bytes
  pub spelled : s ≡ before ++ letter_s ∷ (season ++ letter_e ∷ (number ++ behind))
  pub blanks : All IsBlank before × All IsBlank behind
  pub letters : ((letter_s ≡ b's') ⊎ (letter_s ≡ b'S')) × ((letter_e ≡ b'e') ⊎ (letter_e ≡ b'E'))
  pub digits : All IsDigit season × All IsDigit number
  pub season_length : (season ≢ []) × (length season ≤ 3)
  pub number_length : (number ≢ []) × (length number ≤ 4)
  pub season_value : e.season ≡ pos (value 0 season)
  pub number_value : e.number ≡ pos (value 0 number)

-- Whatever the expression matches is read.
spelled_code : (s : Bytes) (e : Episode) → Spells s e → parse_episode_code s ≡ some e
unfolding parse_episode_code
spelled_code s e h =
    rw
      (
        h.spelled,
        after_blanks h.before h.letter_s _ h.blanks.0 (no_blank h.letter_s h.letters.0),
        after_letter-either b's' b'S' h.letter_s _ h.letters.0,
        ◌>>=◌,
        some_digits-append 3 h.season _ h.digits.0 h.season_length
            (letter-Stops h.letter_e (h.number ++ h.behind) h.letters.1),
        ◌>>=◌,
        after_letter-either b'e' b'E' h.letter_e _ h.letters.1,
        ◌>>=◌,
        some_digits-append 4 h.number h.behind h.digits.1 h.number_length
            (blank-Stops h.behind h.blanks.1),
        ◌>>=◌,
        at_end-blank h.behind h.blanks.1,
        if◌then◌else◌,
      )
      (λ i. some (record { season = sym h.season_value i; number = sym h.number_value i }))

-- Whatever is read is matched by the expression.
code_spelled : (s : Bytes) (e : Episode) → parse_episode_code s ≡ some e → Spells s e
unfolding parse_episode_code
code_spelled s e h =
    let (before, blanks, trimmed) = skip_blank-split s in
    let (s1, got_s, h) = bind_some _ _ e h in
    let (ds, got_season, h) = bind_some _ _ e h in
    let (s2, got_e, h) = bind_some _ _ e h in
    let (ns, got_number, h) = bind_some _ _ e h in
    let (ends, same) = guard_then _ _ e h in
    let (letter_s, either_s, starts) = after_letter-some _ _ _ _ got_s in
    let (season_digits, season_length, season_spelled) =
      some_digits-some 3 _ ds.0 ds.1 got_season in
    let (letter_e, either_e, middle) = after_letter-some _ _ _ _ got_e in
    let (number_digits, number_length, number_spelled) =
      some_digits-some 4 _ ns.0 ns.1 got_number in
    record {
      before = before;
      letter_s = letter_s;
      season = ds.0;
      letter_e = letter_e;
      number = ns.0;
      behind = ns.1;
      spelled =
          trimmed
          ∙ ap (λ r. before ++ r)
              (starts
                ∙ ap (λ r. letter_s ∷ r)
                    (season_spelled
                      ∙ ap (λ r. ds.0 ++ r) (middle ∙ ap (λ r. letter_e ∷ r) number_spelled)));
      blanks = (blanks, at_end-true _ ends);
      letters = (either_s, either_e);
      digits = (season_digits, number_digits);
      season_length = season_length;
      number_length = number_length;
      season_value = sym (ap (λ x. x.season) same);
      number_value = sym (ap (λ x. x.number) same);
    }

-- A text is read as an episode exactly where the expression matches it, with these numbers.
pub parse_episode_code-Spells :
    (s : Bytes) (e : Episode) → (parse_episode_code s ≡ some e) ↔ Spells s e
parse_episode_code-Spells s e = (code_spelled s e, spelled_code s e)

-- A season of at most three digits and a number of at most four, as a code can say.
abbrev pub IsShort : Episode → Type 0
IsShort e = ((n : ℕ) × (n ≤ 999) × (e.season ≡ pos n)) × ((n : ℕ) × (n ≤ 9999) × (e.number ≡ pos n))

digits_show_02 : (n : ℕ) → All IsDigit (show_02 n)
unfolding show_02
digits_show_02 n = elim (Bool-cases (ltb n 10)) [
  | inl small ↦ rw (small, if◌then◌else◌) (omega arith, show-digits n)
  | inr large ↦ rw (large, if◌then◌else◌) (show-digits n)
]

value-show_02 : (n : ℕ) → value 0 (show_02 n) ≡ n
unfolding show_02 value
value-show_02 n = elim (Bool-cases (ltb n 10)) [
  | inl small ↦ rw (small, if◌then◌else◌) (value-show n)
  | inr large ↦ rw (large, if◌then◌else◌) (value-show n)
]

-- Two digits at least, and no more than the number has.
length-show_02 :
    (k n : ℕ) → n < ten_to (suc (suc k)) → (show_02 n ≢ []) × (length (show_02 n) ≤ suc (suc k))
unfolding show_02
length-show_02 k n h = elim (Bool-cases (ltb n 10)) [
  | inl small ↦ rw (small, if◌then◌else◌) (λ e. cc, ground (arith, length-show 0 n (ground arith)))
  | inr large ↦ rw (large, if◌then◌else◌) (show-ne-nil n, length-show (suc k) n h)
]

string-Spells : (e : Episode) → IsShort e → Spells (string e) e
unfolding string show_02_int
string-Spells e ((n, n_short, season), (m, m_short, number)) = record {
  before = [];
  letter_s = b'S';
  season = show_02 n;
  letter_e = b'E';
  number = show_02 m;
  behind = [];
  spelled = rw (season, number, append-nil, string) refl;
  blanks = (tt, tt);
  letters = (inr refl, inr refl);
  digits = (digits_show_02 n, digits_show_02 m);
  season_length = length-show_02 1 n (omega arith);
  number_length = length-show_02 2 m (omega arith);
  season_value = season ∙ ap pos (sym (value-show_02 n));
  number_value = number ∙ ap pos (sym (value-show_02 m));
}

-- The code that an episode is shown as is read as the episode.
pub parse_episode_code-string : (e : Episode) → IsShort e → parse_episode_code (string e) ≡ some e
parse_episode_code-string e h = spelled_code (string e) e (string-Spells e h)
