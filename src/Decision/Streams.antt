-- ===== src/Decision/Streams.antt =====
-- What the target says of each stream: which are copied, which re-encoded, and in which segments
-- they ride.
use flickr.Base.{
  Bool, true, false, not, ◌&&◌, ◌||◌, Option, none, some, [], ◌≡◌, ◌⊎◌, inl, inr, ◌≢◌, Bytes, str,
  bytes_beq, ℤ, bytes_beq_iff, bytes_eq, ◌==◌, contains, arith, if◌then◌else◌, Bool-cases, Mem, ◌↔◌,
  contains_iff, le_int_iff, ◌≤ℤ◌,
}
use flickr.Base.Float.{Floats}
use flickr.Model.{
  MediaInfo, SubtitleTrack, ClientCapabilities, ServerPolicy, TranscodeTarget, normalize,
  medium_or_video, medium_audio,
}
use flickr.Decision.Tracer.{check, check_if}
use flickr.Decision.Checks.{video_checks, find_embedded_subtitle}
use flickr.Decision.Target.{
  empty_target, output_video, video_part, audio_part, segment_part, ladder_part,
}
use flickr.Decision.Verdict.{chosen_media, UnderCap, bitrate_iff, hdr_iff, burn_none}
use flickr.Decision.Stages.{Staged, encodes_audio, encodes_video, Staged-decide_with}
use flickr.Decision.{Options, decide_with}

module _ {F : Type 0} (m : MediaInfo F) (c : ClientCapabilities) where
  -- The client decodes and streams the video as it is, and nothing is burned into it.
  pub record StreamsVideo (burn : Option SubtitleTrack) : Type 0 where
    pub decodes : Mem m.video_codec c.video_codecs
    pub streams : Mem m.video_codec c.hls_video_codecs
    pub width : m.width ≤ℤ c.max_width
    pub height : m.height ≤ℤ c.max_height
    pub bitrate : UnderCap m.bitrate_bps c.max_bitrate_bps
    pub hdr : (m.hdr ≡ []) ⊎ Mem m.hdr c.supports_hdr
    pub no_burn : burn ≡ none

  -- The video stream may go into the HLS stream as it is.
  pub record CopiesVideo (burn : Option SubtitleTrack) : Type 0 where
    pub streams : StreamsVideo burn
    pub rides : m.video_codec ≡ str "hevc" → Mem (str "fmp4") c.hls_segment_formats

  -- So may the audio stream.
  pub record CopiesAudio : Type 0 where
    pub decodes : Mem m.audio_codec c.audio_codecs
    pub streams : Mem m.audio_codec c.hls_audio_codecs
    pub channels : m.audio_channels ≤ℤ c.max_audio_channels

-- TS segments carry no HEVC; fMP4 ones are used for it alone, and only if the client takes them.
abbrev pub Carried : Bytes → Bytes → ClientCapabilities → Type 0
Carried output format c =
    ((format ≡ str "ts") × (output ≢ str "hevc"))
    ⊎ ((format ≡ str "fmp4") × (output ≡ str "hevc") × Mem (str "fmp4") c.hls_segment_formats)

beq_false : {a b : Bytes} → a ≢ b → a == b ≡ false
beq_false {a} {b} ne = elim (Bool-cases (a == b)) [
  | inl same ↦ absurd (ne ((bytes_beq_iff _ _).0 same))
  | inr other ↦ other
]

module _ (fl : Floats) where
  open fl use {Float}

  module _ (m : MediaInfo Float) (c : ClientCapabilities) (policy : ServerPolicy) (n : ℤ)
      (burn : Option SubtitleTrack) where
    video_kept : Bool
    video_kept = not (
        encodes_video fl m c policy n burn
        || (m.video_codec == str "hevc" && not (contains c.hls_segment_formats (str "fmp4"))))

    -- The checks and the HLS player ask for no other encoding.
    pub encodes_video_iff : (encodes_video fl m c policy n burn ≡ false) ↔ StreamsVideo m c burn
    unfolding encodes_video video_checks check check_if
    encodes_video_iff = (
      λ h. record {
        decodes = (contains_iff _ _).0 (ground arith);
        streams = (contains_iff _ _).0 (ground arith);
        width = (le_int_iff _ _).0 (ground arith);
        height = (le_int_iff _ _).0 (ground arith);
        bitrate = (bitrate_iff _ _).0 (ground arith);
        hdr = (hdr_iff _ _).0 (ground arith);
        no_burn = burn_none burn (ground arith);
      },
      λ p. rw (
        (contains_iff _ _).1 p.decodes,
        (contains_iff _ _).1 p.streams,
        (le_int_iff _ _).1 p.width,
        (le_int_iff _ _).1 p.height,
        (bitrate_iff _ _).1 p.bitrate,
        (hdr_iff _ _).1 p.hdr,
        p.no_burn,
      ),
    )

    pub rides_test :
        (m.video_codec ≡ str "hevc" → Mem (str "fmp4") c.hls_segment_formats)
        → (m.video_codec == str "hevc" && not (contains c.hls_segment_formats (str "fmp4"))) ≡ false
    rides_test rides = elim (Bool-cases (m.video_codec == str "hevc")) [
      | inl hevc ↦ let k = (contains_iff _ _).1 (rides ((bytes_beq_iff _ _).0 hevc)) in ground arith
      | inr other ↦ ground arith
    ]

    video_kept_iff : (video_kept ≡ true) ↔ CopiesVideo m c burn
    unfolding video_kept
    video_kept_iff = (
      λ h. record {
        streams = encodes_video_iff.0 (ground arith);
        rides = λ e.
            (contains_iff _ _).0 (ground (arith, (bytes_beq_iff m.video_codec (str "hevc")).1 e));
      },
      λ p. rw (encodes_video_iff.1 p.streams, rides_test p.rides),
    )

    audio_kept_iff : (encodes_audio fl m c policy n burn ≡ false) ↔ CopiesAudio m c
    unfolding encodes_audio video_checks check check_if
    audio_kept_iff = (
      λ h. record {
        decodes = (contains_iff _ _).0 (ground arith);
        streams = (contains_iff _ _).0 (ground arith);
        channels = (le_int_iff _ _).0 (ground arith);
      },
      λ p. rw (
        (contains_iff _ _).1 p.decodes,
        (contains_iff _ _).1 p.streams,
        (le_int_iff _ _).1 p.channels,
      ),
    )

  module _ (m : MediaInfo Float) (c : ClientCapabilities) (policy : ServerPolicy) (n : ℤ)
      (burn : Option SubtitleTrack) (t : TranscodeTarget Float)
      (staged : Staged fl m c policy n burn t) where
    pub video_codec-Staged : t.video_codec ≡ (
        if encodes_video fl m c policy n burn
          || (m.video_codec == str "hevc" && not (contains c.hls_segment_formats (str "fmp4")))
        then policy.transcode_video_codec
        else [])
    unfolding ladder_part segment_part audio_part video_part empty_target bytes_beq
    video_codec-Staged = let (s1, s2, s3, e) = staged in rw e (ground arith)

    pub audio_codec-Staged :
        t.audio_codec
        ≡ (if encodes_audio fl m c policy n burn then policy.transcode_audio_codec else [])
    unfolding ladder_part segment_part audio_part video_part empty_target
    audio_codec-Staged = let (s1, s2, s3, e) = staged in rw e (ground arith)

    -- No stage asks for another encoding of the video.
    keeps_video :
        policy.transcode_video_codec ≢ [] → t.video_codec ≡ [] → video_kept m c policy n burn ≡ true
    unfolding video_kept
    keeps_video named h = ground (arith, video_codec-Staged)

    CopiesVideo-iff :
        policy.transcode_video_codec ≢ [] → (t.video_codec ≡ []) ↔ CopiesVideo m c burn
    CopiesVideo-iff named = (
      λ h. (video_kept_iff m c policy n burn).0 (keeps_video named h),
      λ p.
          let k = (video_kept_iff m c policy n burn).1 p in
          unfold video_kept in ground (arith, video_codec-Staged),
    )

    CopiesAudio-iff : policy.transcode_audio_codec ≢ [] → (t.audio_codec ≡ []) ↔ CopiesAudio m c
    CopiesAudio-iff named = (
      λ h. (audio_kept_iff m c policy n burn).0 (ground (arith, audio_codec-Staged)),
      λ p. let k = (audio_kept_iff m c policy n burn).1 p in ground (arith, audio_codec-Staged),
    )

    carried_test :
        policy.transcode_video_codec == [] ≡ false
        → policy.transcode_video_codec == str "hevc" ≡ false
        → ((t.segment_format ≡ str "ts") × ((output_video fl m t == str "hevc") ≡ false))
          ⊎ ((t.segment_format ≡ str "fmp4")
              × ((output_video fl m t == str "hevc") ≡ true)
              × (contains c.hls_segment_formats (str "fmp4") ≡ true))
    unfolding ladder_part segment_part audio_part video_part empty_target output_video bytes_beq
    carried_test named other = let (s1, s2, s3, e) = staged in rw e (ground arith)

    carried :
        policy.transcode_video_codec ≢ []
        → policy.transcode_video_codec ≢ str "hevc"
        → Carried (output_video fl m t) t.segment_format c
    carried named other = elim (carried_test (beq_false named) (beq_false other)) [
      | inl (ts, out) ↦
          inl (ts, λ e. ground (arith, (bytes_beq_iff (output_video fl m t) (str "hevc")).1 e))
      | inr (fmp4, out, takes) ↦ inr (fmp4, (bytes_beq_iff _ _).0 out, (contains_iff _ _).0 takes)
    ]

  module _ (media : MediaInfo Float) (caps : ClientCapabilities) (policy : ServerPolicy)
      (opts : Options) (t : TranscodeTarget Float)
      (video : medium_or_video (some (chosen_media fl media opts)) ≢ medium_audio)
      (returned : (decide_with fl media caps policy opts).target ≡ some t) where
    -- Of a transcode that is no audio item's, under a policy that names its codecs: the video is
    -- copied exactly where the client decodes and streams it, its checks hold, nothing is burned
    -- in, and HEVC has fMP4 segments to ride in; the audio is copied exactly where the client
    -- decodes and streams it and takes its channels.
    pub copied_streams :
        policy.transcode_video_codec ≢ []
        → policy.transcode_audio_codec ≢ []
        → ((t.video_codec ≡ [])
            ↔ CopiesVideo
                (chosen_media fl media opts)
                (normalize caps)
                (find_embedded_subtitle (chosen_media fl media opts) opts.burn_subtitle))
          × ((t.audio_codec ≡ []) ↔ CopiesAudio (chosen_media fl media opts) (normalize caps))
    copied_streams video_named audio_named =
        let st = Staged-decide_with fl media caps policy opts t video returned in
        (
          CopiesVideo-iff _ _ policy _ _ t st video_named,
          CopiesAudio-iff _ _ policy _ _ t st audio_named,
        )

    -- Of a video transcode, under a policy whose video codec is named and is not HEVC: HEVC that leaves the server rides in fMP4 segments that the client accepts, and everything else in TS.
    pub hevc_carriage :
        policy.transcode_video_codec ≢ []
        → policy.transcode_video_codec ≢ str "hevc"
        → Carried (output_video fl (chosen_media fl media opts) t) t.segment_format (normalize caps)
    hevc_carriage named other =
        carried _ _ policy _ _ t (Staged-decide_with fl media caps policy opts t video returned)
          named other
