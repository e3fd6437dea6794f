-- ===== src/Passage/Place/Spelling.antt =====
-- The spellings of internal/passage/passage.go that String writes and ParseLocator reads.
use flickr.Base.{
  ℕ, ◌≤◌, ℤ, pos, negsuc, true, some, [], ◌∷◌, ◌++◌, ◌≡◌, refl, ◌⊎◌, inl, inr, ◌∙◌, Bytes, str,
  bytes_eq, bytes_beq, nat_eq, if◌then◌else◌, show, show_int, show-digits, show-Leads, cut_prefix,
  cut_byte, arith,
}
use flickr.Base.Float.{Floats}
use flickr.Passage.Numbers.{max_int64}
use flickr.Passage.Place.Ink.{
  Closed, trim_space-Closed, is_count-Leads, IsCount, atoi-show, is_fraction-Closed, is_cfi-Closed,
  show-Closed,
}
use flickr.Passage.Place.{
  Locator, is_cfi, is_count, is_fraction, to_lower, zero_float, by_cfi, by_count, by_fraction,
  parse_kind, parse_locator, string,
}

module _ (fl : Floats) where
  open fl use {Float, parse, format}

  abbrev pub at_count : Bytes → ℤ → Locator Float
  at_count kind n = record { kind = kind; cfi = []; n = n; f = zero_float fl }

  abbrev pub at_fraction : Float → Locator Float
  at_fraction f = record { kind = str "pct"; cfi = []; n = pos 0; f = f }

  -- A number whose notation is a fraction of the grammar and reads back as itself.
  abbrev pub IsFraction : Float → Type 0
  IsFraction f = (is_fraction (format f) ≡ true) × (parse (format f) ≡ some f)

  -- A locator of one of the four spellings, with what the spelling can say.
  abbrev pub Spellable : Locator Float → Type 0
  Spellable l =
      ((v : Bytes) × (is_cfi v ≡ true) × (l ≡ by_cfi fl v))
      ⊎ (((kind : Bytes) × ((kind ≡ str "ch") ⊎ (kind ≡ str "pg"))
            × ((n : ℤ) × IsCount n × (l ≡ at_count kind n)))
          ⊎ ((f : Float) × IsFraction f × (l ≡ at_fraction f)))

  read_cfi :
      (v : Bytes) → Closed v → parse_locator fl (str "cfi:" ++ v) ≡ parse_kind fl (str "cfi") v
  unfolding parse_locator str is_cfi cut_prefix cut_byte to_lower
  read_cfi v h = rw (trim_space-Closed b'c' (b'f' ∷ b'i' ∷ b':' ∷ []) v (omega arith) h) refl

  read_ch : (v : Bytes) → Closed v → parse_locator fl (str "ch:" ++ v) ≡ parse_kind fl (str "ch") v
  unfolding parse_locator str is_cfi cut_prefix cut_byte to_lower
  read_ch v h = rw (trim_space-Closed b'c' (b'h' ∷ b':' ∷ []) v (omega arith) h) refl

  read_pct :
      (v : Bytes) → Closed v → parse_locator fl (str "pct:" ++ v) ≡ parse_kind fl (str "pct") v
  unfolding parse_locator str is_cfi cut_prefix cut_byte to_lower
  read_pct v h = rw (trim_space-Closed b'p' (b'c' ∷ b't' ∷ b':' ∷ []) v (omega arith) h) refl

  read_pg : (v : Bytes) → Closed v → parse_locator fl (str "pg:" ++ v) ≡ parse_kind fl (str "pg") v
  unfolding parse_locator str is_cfi cut_prefix cut_byte to_lower
  read_pg v h = rw (trim_space-Closed b'p' (b'g' ∷ b':' ∷ []) v (omega arith) h) refl

  string-cfi : (v : Bytes) → string fl (some (by_cfi fl v)) ≡ str "cfi:" ++ v
  unfolding string by_cfi str bytes_beq
  string-cfi v = refl

  reads_cfi :
      (v : Bytes)
      → is_cfi v ≡ true
      → parse_locator fl (string fl (some (by_cfi fl v))) ≡ some (by_cfi fl v)
  reads_cfi v h =
      rw (string-cfi v, read_cfi v (is_cfi-Closed v h))
        (unfold parse_kind str bytes_beq in rw (h, if◌then◌else◌) refl)

  string-ch : (n : ℕ) → string fl (some (at_count (str "ch") (pos n))) ≡ str "ch:" ++ show n
  unfolding string str bytes_beq show_int
  string-ch n = refl

  string-pg : (n : ℕ) → string fl (some (at_count (str "pg") (pos n))) ≡ str "pg:" ++ show n
  unfolding string str bytes_beq show_int
  string-pg n = refl

  string-pct : (f : Float) → string fl (some (at_fraction f)) ≡ str "pct:" ++ format f
  unfolding string str bytes_beq
  string-pct f = refl

  counted :
      (kind v : Bytes)
      → (kind ≡ str "ch") ⊎ (kind ≡ str "pg")
      → is_count v ≡ true
      → parse_kind fl kind v ≡ some (by_count fl kind v)
  unfolding parse_kind str bytes_beq
  counted kind v (inl ch) is = rw (ch, is, if◌then◌else◌) refl
  counted kind v (inr pg) is = rw (pg, is, if◌then◌else◌) refl

  counts :
      (n : ℕ)
      → 1 ≤ n
      → n ≤ max_int64
      → (kind : Bytes) → (kind ≡ str "ch") ⊎ (kind ≡ str "pg")
      → parse_kind fl kind (show n) ≡ some (at_count kind (pos n))
  unfolding by_count
  counts n least fits kind either =
      counted kind (show n) either (is_count-Leads (show n) (show-Leads n least) (show-digits n))
      ∙ rw (atoi-show n fits) refl

  fraction :
      (f : Float)
      → is_fraction (format f) ≡ true
      → parse (format f) ≡ some f
      → parse_kind fl (str "pct") (format f) ≡ some (at_fraction f)
  unfolding parse_kind str bytes_beq by_fraction
  fraction f is reads = rw (is, reads, if◌then◌else◌) refl

  reads_count :
      (kind : Bytes)
      → (kind ≡ str "ch") ⊎ (kind ≡ str "pg")
      → (n : ℤ) → IsCount n
      → parse_locator fl (string fl (some (at_count kind n))) ≡ some (at_count kind n)
  reads_count kind either (negsuc n) h = absurd h
  reads_count kind (inl ch) (pos n) (least, fits) =
      rw (ch, string-ch n)
        (read_ch (show n) (show-Closed n) ∙ counts n least fits (str "ch") (inl refl))
  reads_count kind (inr pg) (pos n) (least, fits) =
      rw (pg, string-pg n)
        (read_pg (show n) (show-Closed n) ∙ counts n least fits (str "pg") (inr refl))

  reads_fraction :
      (f : Float)
      → IsFraction f
      → parse_locator fl (string fl (some (at_fraction f))) ≡ some (at_fraction f)
  reads_fraction f (is, reads) =
      rw (string-pct f)
        (read_pct (format f) (is_fraction-Closed (format f) is) ∙ fraction f is reads)

  -- A locator that a spelling can say is written so that it reads back as itself.
  pub parse_locator-string :
      (l : Locator Float) → Spellable l → parse_locator fl (string fl (some l)) ≡ some l
  parse_locator-string l (inl (v, is, same)) = rw same (reads_cfi v is)
  parse_locator-string l (inr (inl (kind, either, (n, is, same)))) =
      rw same (reads_count kind either n is)
  parse_locator-string l (inr (inr (f, is, same))) = rw same (reads_fraction f is)
