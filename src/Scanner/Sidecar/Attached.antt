-- ===== src/Scanner/Sidecar/Attached.antt =====
-- The tracks that internal/scanner/sidecar.go attaches: those of the files beside the video, behind
-- the embedded ones, and no panic.
use flickr.Base.{
  ℕ, suc, ◌+◌, ◌≤◌, pos, Bool, true, false, ◌&&◌, none, some, List, [], ◌∷◌, ◌++◌, ◌≡◌, refl, sym,
  ap, ◌∙◌, inl, inr, Bytes, nat_eq, bytes_eq, ◌==◌, if◌then◌else◌, leb, le→leb, length,
  length-append, is_some, cut_prefix, cut_prefix-some, ◌>>=◌, All, Bool-cases, if_split,
  Option-cases, arith,
}
use flickr.Base.Sort.{All-sort_by, bytes_lt}
use flickr.Base.FilePath.{base, ext, dir, length-ext}
use mathlib.Core.List.{append-nil}
use flickr.Model.{MediaInfo, SubtitleTrack}
use flickr.Scanner.Sidecar.{
  SidecarFile, lookup, subtitle_exts, stem_of, belongs, belonging, match_sidecars, embedded,
  suffix_chain, external_track, external_tracks, attach_sidecars,
}

-- The name is the stem, a dot, and more.
abbrev HasStem : Bytes → SidecarFile → Type 0
HasStem video s = (rest : Bytes) × (base s.key ≡ stem_of video ++ b'.' ∷ rest)

second_of : (a b : Bool) → a && b ≡ true → b ≡ true
second_of true b h = h
second_of false b h = cc

belongs-HasStem : (video : Bytes) (s : SidecarFile) → belongs video s ≡ true → HasStem video s
unfolding belongs
belongs-HasStem video s h =
    let named = second_of (dir s.key == dir video) _ h in
    elim (Option-cases (cut_prefix (base s.key) (stem_of video))) [
      | inl other ↦ absurd (cc (rw (other) at named))
      | inr (rest, there) ↦ elim (Option-cases (cut_prefix rest (b'.' ∷ []))) [
        | inl plain ↦ absurd (cc (rw (there, plain, is_some) at named))
        | inr (behind, dot) ↦ (
          behind,
          cut_prefix-some (base s.key) (stem_of video) rest there
              ∙ ap (λ r. stem_of video ++ r) (cut_prefix-some rest (b'.' ∷ []) behind dot),
        )
      ]
    ]

belonging-HasStem :
    (video : Bytes) (subs : List SidecarFile) → All (HasStem video) (belonging video subs)
unfolding belonging
belonging-HasStem video [] = tt
belonging-HasStem video (s ∷ subs) = elim (Bool-cases (belongs video s)) [
  | inl own ↦ rw (own, if◌then◌else◌) (belongs-HasStem video s own, belonging-HasStem video subs)
  | inr other ↦ rw (other, if◌then◌else◌) (belonging-HasStem video subs)
]

match_sidecars-HasStem :
    (video : Bytes) (subs : List SidecarFile) → All (HasStem video) (match_sidecars video subs)
unfolding match_sidecars
match_sidecars-HasStem video subs =
    All-sort_by (λ a b. bytes_lt a.key b.key) (HasStem video) _ (belonging-HasStem video subs)

embedded_external :
    (t : SubtitleTrack) (ts : List SubtitleTrack)
    → t.external ≡ true
    → embedded (t ∷ ts) ≡ embedded ts
unfolding embedded
embedded_external t ts h = ap (λ b. if b then embedded ts else t ∷ embedded ts) h

embedded_own :
    (t : SubtitleTrack) (ts : List SubtitleTrack)
    → t.external ≡ false
    → embedded (t ∷ ts) ≡ t ∷ embedded ts
unfolding embedded
embedded_own t ts h = ap (λ b. if b then embedded ts else t ∷ embedded ts) h

embedded-append : (ts us : List SubtitleTrack) → embedded (ts ++ us) ≡ embedded ts ++ embedded us
unfolding embedded
embedded-append [] us = refl
embedded-append (t ∷ ts) us = elim (Bool-cases t.external) [
  | inl beside ↦
      embedded_external t (ts ++ us) beside
      ∙ embedded-append ts us
      ∙ ap (λ r. r ++ embedded us) (sym (embedded_external t ts beside))
  | inr inside ↦
      embedded_own t (ts ++ us) inside
      ∙ ap (λ r. t ∷ r) (embedded-append ts us)
      ∙ ap (λ r. r ++ embedded us) (sym (embedded_own t ts inside))
]

embedded-embedded : (ts : List SubtitleTrack) → embedded (embedded ts) ≡ embedded ts
unfolding embedded
embedded-embedded [] = refl
embedded-embedded (t ∷ ts) = elim (Bool-cases t.external) [
  | inl beside ↦
      ap embedded (embedded_external t ts beside)
      ∙ embedded-embedded ts
      ∙ sym (embedded_external t ts beside)
  | inr inside ↦
      ap embedded (embedded_own t ts inside)
      ∙ embedded_own t (embedded ts) inside
      ∙ ap (λ r. t ∷ r) (embedded-embedded ts)
      ∙ sym (embedded_own t ts inside)
]

-- A track for every file of a known extension, in their order, numbered on from a number.
pub data Numbered (lower : Bytes → Bytes) : ℕ → List SidecarFile → List SubtitleTrack → Type 0 where
  no_more : (n : ℕ) → Numbered lower n [] []
  passed :
      (n : ℕ) (s : SidecarFile) (subs : List SidecarFile) (ts : List SubtitleTrack)
      → lookup (lower (ext (base s.key))) subtitle_exts ≡ none
      → Numbered lower n subs ts
      → Numbered lower n (s ∷ subs) ts
  track :
      (n : ℕ) (s : SidecarFile) (t : SubtitleTrack) (subs : List SidecarFile)
      (ts : List SubtitleTrack)
      → lookup (lower (ext (base s.key))) subtitle_exts ≡ some t.codec
      → (t.ordinal ≡ pos n) × (t.object_key ≡ s.key) × (t.external ≡ true)
      → Numbered lower (suc n) subs ts
      → Numbered lower n (s ∷ subs) (t ∷ ts)

Numbered-embedded :
    (lower : Bytes → Bytes) (n : ℕ) (subs : List SidecarFile) (ts : List SubtitleTrack)
    → Numbered lower n subs ts
    → embedded ts ≡ []
unfolding embedded
Numbered-embedded lower n subs ts (no_more m) = refl
Numbered-embedded lower n subs ts (passed m s subs' ts' unknown later) =
    Numbered-embedded lower n subs' ts later
Numbered-embedded lower n subs ts (track m s t subs' ts' known (at, of, beside) later) =
    embedded_external t ts' beside ∙ (Numbered-embedded lower (suc n) subs' ts' later)

module _ (lower : Bytes → Bytes)
    (no_longer : (e codec : Bytes)
      → lookup (lower e) subtitle_exts ≡ some codec
      → length (lower e) ≤ length e) where
  suffix_chain_fits :
      (stem e name : Bytes)
      → length stem + length e ≤ length name
      → (suffix : Bytes) × (suffix_chain lower stem e name ≡ some suffix)
  unfolding suffix_chain
  suffix_chain_fits stem e name h =
      if_split (λ r. (suffix : Bytes) × (r ≡ some suffix))
        (leb (length stem + length e) (length name)) _ none (λ long. (_, refl))
        (λ short. absurd (cc (short, le→leb (length stem + length e) (length name) h)))

  HasStem-suffix_chain :
      (video : Bytes) (s : SidecarFile) (codec : Bytes)
      → HasStem video s
      → lookup (lower (ext (base s.key))) subtitle_exts ≡ some codec
      → (suffix : Bytes) × (suffix_chain lower
            (stem_of video)
            (lower (ext (base s.key)))
            (base s.key)
          ≡ some suffix)
  HasStem-suffix_chain video s codec (rest, split) known =
      let known' = rw (split) at known in
      let short = no_longer (ext (stem_of video ++ b'.' ∷ rest)) codec known' in
      suffix_chain_fits (stem_of video) (lower (ext (base s.key))) (base s.key) (
        rw (split, length-append (stem_of video) (b'.' ∷ rest))
          (omega (arith, length-ext (stem_of video) rest, short)))

  external_tracks-Numbered :
      (video : Bytes) (subs : List SidecarFile) (n : ℕ)
      → All (HasStem video) subs
      → (ts : List SubtitleTrack) × (external_tracks lower video subs n ≡ some ts)
        × Numbered lower n subs ts
  unfolding external_tracks external_track
  external_tracks-Numbered video [] n h = ([], refl, no_more n)
  external_tracks-Numbered video (s ∷ subs) n (hs, h) =
      elim (Option-cases (lookup (lower (ext (base s.key))) subtitle_exts)) [
        | inl unknown ↦
            let (ts, is, numbered) = external_tracks-Numbered video subs n h in
            (ts, rw (external_tracks, unknown) is, passed n s subs ts unknown numbered)
        | inr (codec, known) ↦
            let (suffix, chain) = HasStem-suffix_chain video s codec hs known in
            let (ts, is, numbered) = external_tracks-Numbered video subs (suc n) h in
            (
              external_track lower s codec suffix n ∷ ts,
              rw (external_tracks, known, chain, ◌>>=◌, is, ◌>>=◌) refl,
              track n s _ subs ts known (refl, refl, refl) numbered,
            )
      ]

  -- Attaching the files that belong to a video does not panic: it leaves the embedded tracks and puts
  -- behind them one track for each file of a known extension, in their order and numbered on. Attaching
  -- any files to the result is attaching them to what was probed. Lower case makes no known extension
  -- longer.
  pub attach_sidecars-Attached :
      {F : Type 0} (info : MediaInfo F) (video : Bytes) (objects : List SidecarFile)
      → (tracks : List SubtitleTrack) × (attach_sidecars lower
            (some info)
            video
            (match_sidecars video objects)
          ≡ some (some (record info { subtitles = embedded info.subtitles ++ tracks })))
        × Numbered lower (length (embedded info.subtitles)) (match_sidecars video objects) tracks
        × ((later : List SidecarFile)
            → attach_sidecars lower
                (some (record info { subtitles = embedded info.subtitles ++ tracks }))
                video
                later
              ≡ attach_sidecars lower (some info) video later)
  unfolding attach_sidecars
  attach_sidecars-Attached info video objects =
      let (tracks, is, numbered) =
        external_tracks-Numbered video (match_sidecars video objects)
          (length (embedded info.subtitles)) (match_sidecars-HasStem video objects) in
      (
        tracks,
        rw (is, ◌>>=◌) refl,
        numbered,
        λ later.
            rw
              (
                embedded-append (embedded info.subtitles) tracks,
                embedded-embedded info.subtitles,
                Numbered-embedded lower _ _ tracks numbered,
                append-nil (embedded info.subtitles),
              )
              refl,
      )
