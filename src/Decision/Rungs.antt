-- ===== src/Decision/Rungs.antt =====
-- The adaptive-bitrate ladder of a transcode.
use mathlib.Core.List.{mem-cons, mem-cons_self, mem-cons_of_mem, not-mem-nil, Mem-prop}
use mathlib.Core.Logic.Or
use mathlib.Core.HLevel.{×_prop}
use mathlib.Core.Bool.{Bool-set}
use flickr.Base.{
  true, Option, some, List, [], ◌∷◌, ◌≡◌, refl, subst, ◌⊎◌, inl, inr, ◌≢◌, ◌↔◌, ℤ, pos,
  bytes_beq_iff, bytes_eq, ◌==◌, arith, if◌then◌else◌, Bool-cases, Mem, lt_int, le_int,
  le_int-false_iff, not_lt_int_iff, <ℤ_trans, ◌<ℤ◌, ◌≤ℤ◌, int_eq,
}
use flickr.Base.Float.{Floats}
use flickr.Model.{
  MediaInfo, SubtitleTrack, ClientCapabilities, ServerPolicy, TranscodeTarget, Rendition, normalize,
  medium_or_video, medium_audio,
}
use flickr.Decision.Ladder.{ladder_rungs, offered, lower_rungs, kept_height, build_ladder}
use flickr.Decision.Target.{empty_target, video_part, audio_part, segment_part, ladder_part}
use flickr.Decision.Stages.{Staged, Staged-decide_with}
use flickr.Decision.Verdict.{chosen_media}
use flickr.Decision.{Options, decide_with}

-- A rung that may stand below the primary one.
abbrev pub Fits : ℤ → ℤ → Rendition → Type 0
Fits primary_height max_height r =
    (r.height <ℤ primary_height) × ((max_height ≤ℤ pos 0) ⊎ (r.height ≤ℤ max_height))

-- Every height is below the one before it.
abbrev pub Descending : ℤ → List Rendition → Type 0
Descending h [] = Unit
Descending h (r ∷ rs) = (r.height <ℤ h) × Descending r.height rs

module _ (h limit : ℤ) where
  offered→Fits : (r : Rendition) → offered h limit r ≡ true → Fits h limit r
  unfolding offered
  offered→Fits r e = (
    (le_int-false_iff _ _).0 (ground arith),
    elim (Bool-cases (lt_int (pos 0) limit)) [
      | inl limited ↦ inr ((not_lt_int_iff _ _).0 (ground arith))
      | inr free ↦ inl ((not_lt_int_iff _ _).0 free)
    ],
  )

  Fits→offered : (r : Rendition) → Fits h limit r → offered h limit r ≡ true
  unfolding offered
  Fits→offered r (below, inl free) =
      rw ((le_int-false_iff _ _).1 below, (not_lt_int_iff _ _).1 free)
  Fits→offered r (below, inr under) =
      let k = (le_int-false_iff _ _).1 below in let l = (not_lt_int_iff _ _).1 under in ground arith

  rung_prop : (r : Rendition) (rs : List Rendition) → IsProp (Mem r rs × (offered h limit r ≡ true))
  rung_prop r rs = ×_prop Mem-prop (Bool-set _ _)

  mem→rung :
      (r : Rendition) (rs : List Rendition)
      → Mem r (lower_rungs h limit rs)
      → Mem r rs × (offered h limit r ≡ true)
  unfolding lower_rungs
  mem→rung r [] m = absurd (not-mem-nil m)
  mem→rung r (x ∷ rs) m = elim (Bool-cases (offered h limit x)) [
    | inl kept ↦
        Or.elim (rung_prop r (x ∷ rs)) (mem-cons.0 (rw (kept, if◌then◌else◌) at m))
          (λ e. rw e (mem-cons_self, kept))
          (λ n. let (old, fits) = mem→rung r rs n in (mem-cons_of_mem x old, fits))
    | inr dropped ↦
        let (old, fits) = mem→rung r rs (rw (dropped, if◌then◌else◌) at m) in
        (mem-cons_of_mem x old, fits)
  ]

  rung→mem :
      (r : Rendition) (rs : List Rendition)
      → offered h limit r ≡ true
      → Mem r rs
      → Mem r (lower_rungs h limit rs)
  unfolding lower_rungs
  rung→mem r [] fits m = absurd (not-mem-nil m)
  rung→mem r (x ∷ rs) fits m =
      Or.elim Mem-prop (mem-cons.0 m)
        (λ e. rw (subst (λ y. offered h limit y ≡ true) e fits, if◌then◌else◌) (rw e mem-cons_self))
        (λ n. elim (Bool-cases (offered h limit x)) [
          | inl kept ↦ rw (kept, if◌then◌else◌) (mem-cons_of_mem x (rung→mem r rs fits n))
          | inr dropped ↦ rw (dropped, if◌then◌else◌) (rung→mem r rs fits n)
        ])

  Descending-below : (k : ℤ) (rs : List Rendition) → k <ℤ h → Descending k rs → Descending h rs
  Descending-below k [] lt d = tt
  Descending-below k (r ∷ rs) lt (below, d) = (<ℤ_trans r.height k h below lt, d)

-- Dropping rungs keeps a descending list descending.
lower_rungs-Descending :
    (h limit k : ℤ) (rs : List Rendition) → Descending k rs → Descending k (lower_rungs h limit rs)
unfolding lower_rungs
lower_rungs-Descending h limit k [] d = tt
lower_rungs-Descending h limit k (r ∷ rs) (below, d) =
    let rest = lower_rungs-Descending h limit r.height rs d in
    elim (Bool-cases (offered h limit r)) [
      | inl kept ↦ rw (kept, if◌then◌else◌) (below, rest)
      | inr dropped ↦ rw (dropped, if◌then◌else◌) (Descending-below k limit r.height _ below rest)
    ]

-- A descending list of rungs below the primary height is descending from there.
bounded_head :
    (h limit k : ℤ) (rs : List Rendition)
    → Descending k (lower_rungs h limit rs)
    → Descending h (lower_rungs h limit rs)
unfolding lower_rungs
bounded_head h limit k [] d = tt
bounded_head h limit k (r ∷ rs) d = elim (Bool-cases (offered h limit r)) [
  | inl kept ↦
      rw (kept, if◌then◌else◌) ((offered→Fits h limit r kept).0, (rw (kept, if◌then◌else◌) at d).1)
  | inr dropped ↦
      rw (dropped, if◌then◌else◌) (bounded_head h limit k rs (rw (dropped, if◌then◌else◌) at d))
]

ladder_rungs-Descending : Descending (pos 721) ladder_rungs
unfolding le_int
ladder_rungs-Descending = (
  (le_int-false_iff (pos 721) (pos 720)).0 refl,
  ((le_int-false_iff (pos 720) (pos 480)).0 refl, tt),
)

-- The rungs below the primary one: descending from its height, and exactly those of the fixed ones
-- that fit.
abbrev pub LowerRungs : ℤ → ℤ → List Rendition → Type 0
LowerRungs h limit lower =
    Descending h lower × ((r : Rendition) → Mem r lower ↔ (Mem r ladder_rungs × Fits h limit r))

lower_rungs_lem : (h limit : ℤ) → LowerRungs h limit (lower_rungs h limit ladder_rungs)
lower_rungs_lem h limit = (
  bounded_head h limit (pos 721) ladder_rungs
      (lower_rungs-Descending h limit (pos 721) ladder_rungs ladder_rungs-Descending),
  λ r. (
    λ m. let (old, fits) = mem→rung h limit r ladder_rungs m in (old, offered→Fits h limit r fits),
    λ (old, fits). rung→mem h limit r ladder_rungs (Fits→offered h limit r fits) old,
  ),
)

module _ (fl : Floats) where
  open fl use {Float}

  renditions-Staged :
      (m : MediaInfo Float) (c : ClientCapabilities) (policy : ServerPolicy) (n : ℤ)
      (burn : Option SubtitleTrack) (t : TranscodeTarget Float)
      → Staged fl m c policy n burn t
      → t.renditions ≡ (if t.video_codec == [] then [] else build_ladder m c t)
  unfolding ladder_part segment_part audio_part video_part empty_target build_ladder
  renditions-Staged m c policy n burn t (s1, s2, s3, e) = rw e (ground arith)

  -- A transcode that is no audio item's has a ladder exactly where its video is re-encoded. The
  -- ladder starts with the target's own height and bitrate, and goes on with those of the fixed
  -- rungs that are below the height that leaves the server and within the client's, highest first.
  pub ladder :
      (media : MediaInfo Float) (caps : ClientCapabilities) (policy : ServerPolicy) (opts : Options)
      (t : TranscodeTarget Float)
      → medium_or_video (some (chosen_media fl media opts)) ≢ medium_audio
      → (decide_with fl media caps policy opts).target ≡ some t
      → ((t.video_codec ≡ []) × (t.renditions ≡ []))
        ⊎ ((t.video_codec ≢ [])
            × (lower : List Rendition) × (t.renditions
                ≡ record { height = t.height; video_bitrate_bps = t.video_bitrate_bps } ∷ lower)
            × LowerRungs
                (kept_height (chosen_media fl media opts).height t.height)
                (normalize caps).max_height
                lower)
  unfolding build_ladder
  ladder media caps policy opts t video returned = elim (Bool-cases (t.video_codec == [])) [
    | inl copied ↦ inl ((bytes_beq_iff _ _).0 copied, rw (copied, if◌then◌else◌) at rungs)
    | inr encoded ↦ inr (
      λ e. ground (arith, (bytes_beq_iff t.video_codec []).1 e),
      _,
      rw (encoded, if◌then◌else◌) at rungs,
      lower_rungs_lem _ _,
    )
  ]
    where
      rungs : t.renditions ≡ (
          if t.video_codec == []
          then []
          else build_ladder (chosen_media fl media opts) (normalize caps) t)
      rungs =
          renditions-Staged _ _ policy _ _ t
            (Staged-decide_with fl media caps policy opts t video returned)
