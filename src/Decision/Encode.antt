-- ===== src/Decision/Encode.antt =====
-- How a re-encoded video is encoded: film rate, tone mapping, height, burned subtitle.
use flickr.Base.{
  ℕ, refl, negsuc, ◌⊎◌, get_elem?, Option-cases, Bool, true, false, not, ◌&&◌, ◌||◌, Option, none,
  some, List, [], ◌≡◌, inl, inr, ◌≢◌, Bytes, str, ℤ, pos, bytes_beq_iff, bytes_eq, contains,
  contains_iff, arith, if◌then◌else◌, Bool-cases, Mem, lt_int, min_int, le_int, int_eq,
}
use flickr.Base.Float.{Floats}
use flickr.Model.{
  MediaInfo, AudioTrack, TraceStep, SubtitleTrack, ClientCapabilities, ServerPolicy,
  TranscodeTarget, normalize, medium_or_video, medium_audio,
}
use flickr.Decision.Tracer.{check, check_if}
use flickr.Decision.Checks.{select_audio, video_checks, find_embedded_subtitle}
use flickr.Decision.Target.{empty_target, video_part, audio_part, segment_part, ladder_part}
use flickr.Decision.Verdict.{chosen_media, chosen_track}
use flickr.Decision.Stages.{Staged, encodes_video, Staged-decide_with}
use flickr.Decision.Streams.{StreamsVideo, video_codec-Staged, encodes_video_iff}
use flickr.Decision.{Options, decide_with}

abbrev pub ordinal_of : Option SubtitleTrack → Option ℤ
ordinal_of none = none
ordinal_of (some s) = some s.ordinal

-- The track that a transcode is fed: the one that was asked for, where the file has it, else the first.
abbrev pub Feeds : {F : Type 0} → MediaInfo F → Option ℤ → ℤ → Type 0
Feeds media wanted n =
    ((k : ℕ) × (a : AudioTrack) × (wanted ≡ some (pos k))
      × (get_elem? media.audio_tracks k ≡ some a)
      × (n ≡ pos k))
    ⊎ (((k : ℕ) (a : AudioTrack)
          → wanted ≡ some (pos k)
          → get_elem? media.audio_tracks k ≡ some a
          → ⊥)
        × (n ≡ pos 0))

select_audio-Feeds :
    {F : Type 0} (media : MediaInfo F) (wanted : Option ℤ) (s : List TraceStep)
    → Feeds media wanted (select_audio media wanted s).0.1
unfolding select_audio
select_audio-Feeds media none s = inr (λ k a h _. absurd (cc h), refl)
select_audio-Feeds media (some (negsuc j)) s = inr (λ k a h _. absurd (cc h), refl)
select_audio-Feeds media (some (pos j)) s = elim (Option-cases (get_elem? media.audio_tracks j)) [
  | inl gone ↦
      rw (select_audio, gone)
        (inr
          (λ k a h there. let same : j ≡ k = cc in absurd (cc (gone, rw (← same) at there)), refl))
  | inr (a, there) ↦ rw (select_audio, there) (inl (j, a, refl, there, refl))
]

contains-false : {xs : List Bytes} {a : Bytes} → ¬ Mem a xs → contains xs a ≡ false
contains-false {xs} {a} h = elim (Bool-cases (contains xs a)) [
  | inl e ↦ absurd (h ((contains_iff xs a).0 e))
  | inr e ↦ e
]

module _ (fl : Floats) where
  open fl use {Float}

  module _ (m : MediaInfo Float) (c : ClientCapabilities) (policy : ServerPolicy) (n : ℤ)
      (burn : Option SubtitleTrack) (t : TranscodeTarget Float)
      (staged : Staged fl m c policy n burn t) where
    abbrev encodes : Bool
    encodes = encodes_video fl m c policy n burn

    abbrev scales : Bool
    scales =
        not (le_int m.width c.max_width && le_int m.height c.max_height)
        || lt_int policy.max_transcode_height m.height

    fields-Staged :
        (t.detelecine ≡ (encodes && m.telecine))
        × (t.height ≡ (
            if encodes && scales then min_int c.max_height policy.max_transcode_height else pos 0))
        × (t.burn_subtitle_ordinal ≡ (if encodes then ordinal_of burn else none))
        × (t.audio_stream_ordinal ≡ n)
        × (t.audio_only ≡ false)
    unfolding ladder_part segment_part audio_part video_part empty_target video_checks check
        check_if
    fields-Staged = let (s1, s2, s3, e) = staged in rw e (ground arith)

    burn-encodes : (s : SubtitleTrack) → burn ≡ some s → encodes ≡ true
    burn-encodes s e = elim (Bool-cases encodes) [
      | inl on ↦ on
      | inr off ↦ absurd (burns_none e ((encodes_video_iff fl m c policy n burn).0 off).no_burn)
    ]
      where
        burns_none : burn ≡ some s → burn ≡ none → ⊥
        burns_none p q = cc

  module _ (media : MediaInfo Float) (caps : ClientCapabilities) (policy : ServerPolicy)
      (opts : Options) (t : TranscodeTarget Float)
      (video : medium_or_video (some (chosen_media fl media opts)) ≢ medium_audio)
      (returned : (decide_with fl media caps policy opts).target ≡ some t) where
    abbrev m : MediaInfo Float
    m = chosen_media fl media opts

    abbrev c : ClientCapabilities
    c = normalize caps

    abbrev burn : Option SubtitleTrack
    burn = find_embedded_subtitle m opts.burn_subtitle

    built : Staged fl m c policy (chosen_track fl media opts) burn t
    built = Staged-decide_with fl media caps policy opts t video returned

    -- An HEVC video that the client decodes and streams, but for which it takes no fMP4 segments,
    -- is re-encoded at the height of the source whatever the policy's limit, with its pulldown
    -- left in.
    pub hevc_fallback :
        m.video_codec ≡ str "hevc"
        → ¬ Mem (str "fmp4") c.hls_segment_formats
        → StreamsVideo m c burn
        → (t.video_codec ≡ policy.transcode_video_codec)
          × (t.height ≡ pos 0)
          × (t.detelecine ≡ false)
    hevc_fallback hevc refuses plays =
        let off = (encodes_video_iff fl m c policy (chosen_track fl media opts) burn).1 plays in
        let f = fields-Staged m c policy _ burn t built in
        (
          rw (
            video_codec-Staged fl m c policy _ burn t built,
            off,
            (bytes_beq_iff _ _).1 hevc,
            contains-false refuses,
          ),
          rw (f.1, off, if◌then◌else◌),
          rw (f.0, off),
        )

    -- A subtitle to burn forces a re-encode with the policy's codec, which carries it, and the track that is fed to the transcode is the audio track that was asked for where the file has it, and else the first.
    pub burn_reencodes :
        (s : SubtitleTrack)
        → burn ≡ some s
        → (t.video_codec ≡ policy.transcode_video_codec)
          × (t.burn_subtitle_ordinal ≡ some s.ordinal)
          × Feeds media opts.audio_track t.audio_stream_ordinal
          × (t.audio_only ≡ false)
    unfolding chosen_track
    burn_reencodes s e =
        let on = burn-encodes m c policy (chosen_track fl media opts) burn t built s e in
        let f = fields-Staged m c policy _ burn t built in
        (
          rw (video_codec-Staged fl m c policy _ burn t built, on),
          rw (f.2, on, if◌then◌else◌, e),
          rw (f.3, chosen_track) (select_audio-Feeds media opts.audio_track []),
          f.4,
        )
