-- ===== src/Works/Cursor.antt =====
-- The cursor of internal/works/feed.go: a position in the change feed, and its spelling.
use flickr.Base.{
  cut_prefix-some, bind_some, ℕ, ◌≤◌, ℤ, pos, not, ◌&&◌, Option, none, some, [], ◌∷◌, ◌++◌, ◌≡◌,
  refl, ◌≢◌, ◌↔◌, ◌⊎◌, inl, inr, ap, ◌∙◌, sym, Bytes, nat_eq, if◌then◌else◌, ◌>>=◌, cut_prefix, ltb,
  value, value-show, show, show_int, show-digits, show-ne-nil, IsDigit, All, guard_then, some_inj,
  arith,
}
use flickr.Passage.Numbers.{max_int64, is_item_id, is_item_id-digits, is_item_id-IsDigit}

pub record Cursor : Type 0 where
  pub lib : ℤ
  pub state : ℤ

-- "l%d.s%d"
unfoldable pub string : Cursor → Bytes
string c = b'l' ∷ (show_int c.lib ++ b'.' ∷ b's' ∷ show_int c.state)

-- strings.Cut at ".s".
unfoldable pub cut_state : Bytes → Option (Bytes × Bytes)
cut_state [] = none
cut_state (c ∷ s) =
    let rest = cut_state s in
    elim (cut_prefix (c ∷ s) (b'.' ∷ b's' ∷ [])) [
      | some behind ↦ some ([], behind)
      | none ↦ elim rest [ none ↦ none | some (before, behind) ↦ some (c ∷ before, behind) ]
    ]

-- ParseUint to 63 bits: digits, and no more than the largest int64.
unfoldable pub parse_uint : Bytes → Option ℕ
parse_uint s = if is_item_id s && not (ltb max_int64 (value 0 s)) then some (value 0 s) else none

-- None is the error of a malformed cursor.
unfoldable pub parse_cursor : Bytes → Option Cursor
parse_cursor s = cut_prefix s (b'l' ∷ []) >>= λ rest. cut_state rest >>= λ (lib, state).
    parse_uint lib >>= λ l. parse_uint state >>= λ s. some (record { lib = pos l; state = pos s })

-- The grammar of a cursor: l, digits, .s, digits, each number an int64.
pub record Spells (s : Bytes) (c : Cursor) : Type 0 where
  pub lib : Bytes
  pub state : Bytes
  pub spelled : s ≡ b'l' ∷ (lib ++ b'.' ∷ b's' ∷ state)
  pub digits : All IsDigit lib × All IsDigit state
  pub named : (lib ≢ []) × (state ≢ [])
  pub fits : (value 0 lib ≤ max_int64) × (value 0 state ≤ max_int64)
  pub lib_value : c.lib ≡ pos (value 0 lib)
  pub state_value : c.state ≡ pos (value 0 state)

cut_state-append :
    (ds s : Bytes) → All IsDigit ds → cut_state (ds ++ b'.' ∷ b's' ∷ s) ≡ some (ds, s)
unfolding cut_state cut_prefix
cut_state-append [] s h = refl
cut_state-append (d ∷ ds) s (hd, h) = ground (arith, cut_state-append ds s h)

parse_uint-digits :
    (ds : Bytes)
    → ds ≢ []
    → All IsDigit ds
    → value 0 ds ≤ max_int64
    → parse_uint ds ≡ some (value 0 ds)
unfolding parse_uint
parse_uint-digits ds named h fits = rw (is_item_id-digits ds named h) (ground arith)

parse_uint-some :
    (ds : Bytes) (n : ℕ)
    → parse_uint ds ≡ some n
    → (ds ≢ []) × All IsDigit ds × (value 0 ds ≤ max_int64) × (value 0 ds ≡ n)
unfolding parse_uint
parse_uint-some ds n h =
    let (is, same) = guard_then (is_item_id ds && not (ltb max_int64 (value 0 ds))) _ n h in
    let (named, digits) = is_item_id-IsDigit ds (ground arith) in
    (named, digits, ground arith, same)

spelled_cursor : (s : Bytes) (c : Cursor) → Spells s c → parse_cursor s ≡ some c
unfolding parse_cursor cut_prefix
spelled_cursor s c h =
    rw
      (
        h.spelled,
        cut_state-append h.lib h.state h.digits.0,
        ◌>>=◌,
        parse_uint-digits h.lib h.named.0 h.digits.0 h.fits.0,
        ◌>>=◌,
        parse_uint-digits h.state h.named.1 h.digits.1 h.fits.1,
        ◌>>=◌,
      )
      (λ i. some (record { lib = sym h.lib_value i; state = sym h.state_value i }))

-- The halves stand at this place, or further on behind the byte.
cut_here :
    (c : ℕ) (o : Option Bytes) (later : Option (Bytes × Bytes)) (before behind : Bytes)
    → elim o as (λ _. Option (Bytes × Bytes)) [
      | some rest ↦ some ([], rest)
      | none ↦ elim later [ none ↦ none | some (a, b) ↦ some (c ∷ a, b) ]
    ]
      ≡ some (before, behind)
    → ((before ≡ []) × (o ≡ some behind))
      ⊎ ((a : Bytes) × (before ≡ c ∷ a) × (later ≡ some (a, behind)))
cut_here c (some rest) later before behind h =
    let same = some_inj h in inl (sym (ap (λ r. r.0) same), ap (λ r. some r.1) same)
cut_here c none none before behind h = cc
cut_here c none (some (a, b)) before behind h =
    let same = some_inj h in inr (a, sym (ap (λ r. r.0) same), ap (λ r. some (a, r.1)) same)

cut_state-some :
    (s before behind : Bytes)
    → cut_state s ≡ some (before, behind)
    → s ≡ before ++ b'.' ∷ b's' ∷ behind
unfolding cut_state
cut_state-some [] before behind h = cc
cut_state-some (c ∷ s) before behind h =
    elim (cut_here c (cut_prefix (c ∷ s) (b'.' ∷ b's' ∷ [])) (cut_state s) before behind h) [
      | inl (no_more, starts) ↦
          rw no_more (cut_prefix-some (c ∷ s) (b'.' ∷ b's' ∷ []) behind starts)
      | inr (a, starts, later) ↦ rw starts (ap (λ r. c ∷ r) (cut_state-some s a behind later))
    ]

cursor_spelled : (s : Bytes) (c : Cursor) → parse_cursor s ≡ some c → Spells s c
unfolding parse_cursor
cursor_spelled s c h =
    let (rest, starts, h) = bind_some _ _ c h in
    let (halves, cut, h) = bind_some _ _ c h in
    let (l, lib, h) = bind_some _ _ c h in
    let (n, state, h) = bind_some _ _ c h in
    let (lib_named, lib_digits, lib_fits, lib_same) = parse_uint-some halves.0 l lib in
    let (state_named, state_digits, state_fits, state_same) = parse_uint-some halves.1 n state in
    record {
      lib = halves.0;
      state = halves.1;
      spelled =
          cut_prefix-some s (b'l' ∷ []) rest starts
          ∙ ap (λ r. b'l' ∷ r) (cut_state-some rest halves.0 halves.1 cut);
      digits = (lib_digits, state_digits);
      named = (lib_named, state_named);
      fits = (lib_fits, state_fits);
      lib_value = sym (ap (λ x. x.lib) (some_inj h)) ∙ ap pos (sym lib_same);
      state_value = sym (ap (λ x. x.state) (some_inj h)) ∙ ap pos (sym state_same);
    }

-- A text is read as a cursor exactly where it is spelled l, digits, .s, digits, with numbers that fit an int64.
pub parse_cursor-Spells : (s : Bytes) (c : Cursor) → (parse_cursor s ≡ some c) ↔ Spells s c
parse_cursor-Spells s c = (cursor_spelled s c, spelled_cursor s c)

abbrev pub at : ℕ → ℕ → Cursor
at l n = record { lib = pos l; state = pos n }

-- A cursor of counters that fit an int64 is written so that it reads back as itself.
pub parse_cursor-string :
    (l n : ℕ) → l ≤ max_int64 → n ≤ max_int64 → parse_cursor (string (at l n)) ≡ some (at l n)
unfolding string show_int
parse_cursor-string l n l_fits n_fits = spelled_cursor (string (at l n)) (at l n) (record {
  lib = show l;
  state = show n;
  spelled = refl;
  digits = (show-digits l, show-digits n);
  named = (show-ne-nil l, show-ne-nil n);
  fits = (rw (value-show l) l_fits, rw (value-show n) n_fits);
  lib_value = ap pos (sym (value-show l));
  state_value = ap pos (sym (value-show n));
})
