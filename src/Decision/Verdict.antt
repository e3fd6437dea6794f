-- ===== src/Decision/Verdict.antt =====
-- Which of the three methods `DecideWith` chooses, against an independent reading of "the client
-- plays this file as it is".
use flickr.Base.{
  Bool, true, false, not, Option, none, some, List, [], ◌≡◌, refl, ◌↔◌, ◌⊎◌, inl, inr, ◌≢◌, Mem,
  Bytes, ℤ, pos, ◌≤ℤ◌, le_int_iff, not_lt_int_iff, bytes_beq_iff, bytes_eq, ◌==◌, contains,
  contains_iff, le_int, lt_int, is_some, arith, if◌then◌else◌, Bool-cases,
}
use flickr.Base.Float.{Floats}
use flickr.Model.{
  MediaInfo, SubtitleTrack, ClientCapabilities, ServerPolicy, PlayMethod, direct_play, transcode,
  deny, normalize, medium_or_video, medium_audio, TraceStep,
}
use flickr.Decision.Tracer.{check, check_if}
use flickr.Decision.Checks.{select_audio, find_embedded_subtitle, video_checks, audio_checks}
use flickr.Decision.{
  Options, all_pass, all_pass_audio, decide_with, decide_medium, decide_video, decide_audio,
}

-- The client takes a stream of this bitrate: it declares no cap, or one that is not exceeded.
abbrev pub UnderCap : ℤ → ℤ → Type 0
UnderCap rate cap = (cap ≤ℤ pos 0) ⊎ (rate ≤ℤ cap)

pub bitrate_iff :
    (rate limit : ℤ)
    → ((if lt_int (pos 0) limit then le_int rate limit else true) ≡ true) ↔ UnderCap rate limit
bitrate_iff rate limit = elim (Bool-cases (lt_int (pos 0) limit)) [
  | inl capped ↦
      rw (capped, if◌then◌else◌)
        (
          λ h. inr ((le_int_iff _ _).0 h),
          elim [
            | inl low ↦ absurd (capped_above capped ((not_lt_int_iff _ _).1 low))
            | inr under ↦ (le_int_iff _ _).1 under
          ],
        )
  | inr uncapped ↦
      rw (uncapped, if◌then◌else◌) (λ _. inl ((not_lt_int_iff _ _).0 uncapped), λ _. refl)
]
  where
    capped_above : lt_int (pos 0) limit ≡ true → lt_int (pos 0) limit ≡ false → ⊥
    capped_above h k = ground arith

pub hdr_iff :
    (hdr : Bytes) (client : List Bytes)
    → ((if not (hdr == []) then contains client hdr else true) ≡ true)
      ↔ ((hdr ≡ []) ⊎ Mem hdr client)
hdr_iff hdr client = elim (Bool-cases (hdr == [])) [
  | inl sdr ↦ rw (sdr, if◌then◌else◌) (λ _. inl ((bytes_beq_iff _ _).0 sdr), λ _. refl)
  | inr some_hdr ↦
      rw (some_hdr, if◌then◌else◌)
        (
          λ h. inr ((contains_iff _ _).0 h),
          elim [ inl e ↦ absurd (not_sdr e some_hdr) | inr m ↦ (contains_iff _ _).1 m ],
        )
]
  where
    not_sdr : hdr ≡ [] → hdr == [] ≡ false → ⊥
    not_sdr e h = ground (arith, (bytes_beq_iff hdr []).1 e)

pub burn_none : (burn : Option SubtitleTrack) → not (is_some burn) ≡ true → burn ≡ none
burn_none none h = refl
burn_none (some b) h = ground arith

module _ {F : Type 0} (m : MediaInfo F) (c : ClientCapabilities) where
  -- A video file that the client plays as it is.
  pub record PlaysVideo : Type 0 where
    pub container : Mem m.container c.containers
    pub video : Mem m.video_codec c.video_codecs
    pub audio : Mem m.audio_codec c.audio_codecs
    pub width : m.width ≤ℤ c.max_width
    pub height : m.height ≤ℤ c.max_height
    pub bitrate : UnderCap m.bitrate_bps c.max_bitrate_bps
    pub hdr : (m.hdr ≡ []) ⊎ Mem m.hdr c.supports_hdr
    pub channels : m.audio_channels ≤ℤ c.max_audio_channels

  -- An audio file that the client plays as it is.
  pub record PlaysAudio : Type 0 where
    pub container : Mem m.container c.containers
    pub audio : Mem m.audio_codec c.audio_codecs
    pub bitrate : UnderCap m.bitrate_bps c.max_bitrate_bps
    pub channels : m.audio_channels ≤ℤ c.max_audio_channels

  -- The recorded checks pass exactly where the client plays the file and nothing is burned in.
  all_pass_iff :
      (burn : Option SubtitleTrack) (s : List TraceStep)
      → (all_pass (video_checks m c s).0 burn ≡ true) ↔ (PlaysVideo × (burn ≡ none))
  unfolding all_pass video_checks check check_if
  all_pass_iff burn s = (
    λ h. (
      record {
        container = (contains_iff _ _).0 (ground arith);
        video = (contains_iff _ _).0 (ground arith);
        audio = (contains_iff _ _).0 (ground arith);
        width = (le_int_iff _ _).0 (ground arith);
        height = (le_int_iff _ _).0 (ground arith);
        bitrate = (bitrate_iff _ _).0 (ground arith);
        hdr = (hdr_iff _ _).0 (ground arith);
        channels = (le_int_iff _ _).0 (ground arith);
      },
      burn_none burn (ground arith),
    ),
    λ (p, e). rw (
      e,
      (contains_iff _ _).1 p.container,
      (contains_iff _ _).1 p.video,
      (contains_iff _ _).1 p.audio,
      (le_int_iff _ _).1 p.width,
      (le_int_iff _ _).1 p.height,
      (bitrate_iff _ _).1 p.bitrate,
      (hdr_iff _ _).1 p.hdr,
      (le_int_iff _ _).1 p.channels,
    ),
  )

  all_pass_audio_iff :
      (s : List TraceStep) → (all_pass_audio (audio_checks m c s).0 ≡ true) ↔ PlaysAudio
  unfolding all_pass_audio audio_checks check check_if
  all_pass_audio_iff s = (
    λ h. record {
      container = (contains_iff _ _).0 (ground arith);
      audio = (contains_iff _ _).0 (ground arith);
      bitrate = (bitrate_iff _ _).0 (ground arith);
      channels = (le_int_iff _ _).0 (ground arith);
    },
    λ p. rw (
      (contains_iff _ _).1 p.container,
      (contains_iff _ _).1 p.audio,
      (bitrate_iff _ _).1 p.bitrate,
      (le_int_iff _ _).1 p.channels,
    ),
  )

abbrev verdict : Bool → Bool → PlayMethod
verdict as_is allowed = if as_is then direct_play else if not allowed then deny else transcode

-- A method that a test of `A` and the policy choose says whether `A` holds.
abbrev pub Chosen : Type 0 → ServerPolicy → PlayMethod → Type 0
Chosen A policy method =
    ((method ≡ direct_play) ↔ A)
    × ((method ≡ transcode) ↔ ((¬ A) × (policy.allow_transcode ≡ true)))
    × ((method ≡ deny) ↔ ((¬ A) × (policy.allow_transcode ≡ false)))

verdict-Chosen :
    {A : Type 0} (as_is : Bool) (policy : ServerPolicy)
    → (as_is ≡ true) ↔ A
    → Chosen A policy (verdict as_is policy.allow_transcode)
verdict-Chosen true policy e = (
  (λ _. e.0 refl, λ _. refl),
  (λ h. absurd (direct_ne h), λ (n, _). absurd (n (e.0 refl))),
  (λ h. absurd (direct_ne_deny h), λ (n, _). absurd (n (e.0 refl))),
)
  where
    direct_ne : direct_play ≡ transcode → ⊥
    direct_ne h = cc

    direct_ne_deny : direct_play ≡ deny → ⊥
    direct_ne_deny h = cc
verdict-Chosen {A} false policy e = elim (Bool-cases policy.allow_transcode) [
  | inl allowed ↦
      rw (allowed, if◌then◌else◌)
        ((λ h. cc, λ a. absurd (fails a)), (λ _. (fails, refl), λ _. refl), (λ h. cc, λ (_, k). cc))
  | inr refused ↦
      rw (refused, if◌then◌else◌)
        ((λ h. cc, λ a. absurd (fails a)), (λ h. cc, λ (_, k). cc), (λ _. (fails, refl), λ _. refl))
]
  where
    fails : ¬ A
    fails a = cc (e.1 a)

module _ (fl : Floats) where
  open fl use {Float}

  method-decide_video :
      (m : MediaInfo Float) (c : ClientCapabilities) (policy : ServerPolicy) (n : ℤ)
      (burn : Option SubtitleTrack) (s : List TraceStep)
      → (decide_video fl m c policy n burn s).0.method
        ≡ verdict (all_pass (video_checks m c s).0 burn) policy.allow_transcode
  unfolding decide_video
  method-decide_video m c policy n burn s = ground arith

  method-decide_audio :
      (m : MediaInfo Float) (c : ClientCapabilities) (policy : ServerPolicy) (n : ℤ)
      (s : List TraceStep)
      → (decide_audio fl m c policy n s).0.method
        ≡ verdict (all_pass_audio (audio_checks m c s).0) policy.allow_transcode
  unfolding decide_audio
  method-decide_audio m c policy n s = ground arith

  -- The client takes the file as it is. An audio file raises the audio questions only, and a
  -- subtitle to burn in rules it out for a video.
  abbrev pub AsIs : MediaInfo Float → ClientCapabilities → Options → Type 0
  AsIs m c opts =
      ((medium_or_video (some m) ≡ medium_audio) × PlaysAudio m c)
      ⊎ ((medium_or_video (some m) ≢ medium_audio)
          × PlaysVideo m c
          × (find_embedded_subtitle m opts.burn_subtitle ≡ none))

  module _ (m : MediaInfo Float) (c : ClientCapabilities) (opts : Options) where
    AsIs-audio : medium_or_video (some m) == medium_audio ≡ true → PlaysAudio m c ↔ AsIs m c opts
    AsIs-audio h = (
      λ p. inl ((bytes_beq_iff _ _).0 h, p),
      elim [ inl (_, p) ↦ p | inr (other, _, _) ↦ absurd (other ((bytes_beq_iff _ _).0 h)) ],
    )

    AsIs-video :
        medium_or_video (some m) == medium_audio ≡ false
        → (PlaysVideo m c × (find_embedded_subtitle m opts.burn_subtitle ≡ none)) ↔ AsIs m c opts
    AsIs-video h = (
      λ (p, e). inr (no_audio, p, e),
      elim [ inl (audio, _) ↦ absurd (no_audio audio) | inr (_, p, e) ↦ (p, e) ],
    )
      where
        no_audio : medium_or_video (some m) ≢ medium_audio
        no_audio e = ground (arith, (bytes_beq_iff (medium_or_video (some m)) medium_audio).1 e)

  iff_trans : {A B C : Type 0} → A ↔ B → B ↔ C → A ↔ C
  iff_trans f g = (λ a. g.0 (f.0 a), λ c. f.1 (g.1 c))

  method-decide_medium :
      (m : MediaInfo Float) (c : ClientCapabilities) (policy : ServerPolicy) (opts : Options)
      (n : ℤ) (s : List TraceStep)
      → Chosen (AsIs m c opts) policy (decide_medium fl m c policy opts n s).0.method
  unfolding decide_medium
  method-decide_medium m c policy opts n s =
      elim (Bool-cases (medium_or_video (some m) == medium_audio)) [
        | inl audio ↦
            rw (audio, if◌then◌else◌, method-decide_audio)
              (verdict-Chosen _ policy
                (iff_trans (all_pass_audio_iff m c s) (AsIs-audio m c opts audio)))
        | inr video ↦
            rw (video, if◌then◌else◌, method-decide_video)
              (verdict-Chosen _ policy
                (iff_trans (all_pass_iff m c _ _) (AsIs-video m c opts video)))
      ]

  -- The media that the checks see: the chosen audio track stands in for the first one.
  unfoldable pub chosen_media : MediaInfo Float → Options → MediaInfo Float
  chosen_media media opts = (select_audio media opts.audio_track []).0.0

  -- The ordinal of that track, 0 where none was chosen.
  unfoldable pub chosen_track : MediaInfo Float → Options → ℤ
  chosen_track media opts = (select_audio media opts.audio_track []).0.1

  -- A file that the client plays as it is, is played directly; any other is transcoded where the
  -- policy allows it, and denied where it does not. Each holds in both directions. The client's
  -- capabilities are read after their defaults are filled in, the media with the chosen audio
  -- track in place of the first.
  pub method-decide_with :
      (media : MediaInfo Float) (caps : ClientCapabilities) (policy : ServerPolicy) (opts : Options)
      → Chosen
          (AsIs (chosen_media media opts) (normalize caps) opts)
          policy
          (decide_with fl media caps policy opts).method
  unfolding decide_with chosen_media
  method-decide_with media caps policy opts = method-decide_medium _ _ policy opts _ _
