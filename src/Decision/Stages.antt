-- ===== src/Decision/Stages.antt =====
-- The target that `DecideWith` returns for a video, as the stages of the source put it together.
use flickr.Base.{
  Bool, false, not, ◌&&◌, ◌||◌, Option, some, List, [], ◌≡◌, sym, ◌≢◌, ℤ, bytes_beq_iff, bytes_eq,
  ◌==◌, is_some, arith, if◌then◌else◌, some_inj,
}
use flickr.Base.Float.{Floats}
use flickr.Model.{
  MediaInfo, SubtitleTrack, ClientCapabilities, ServerPolicy, TranscodeTarget, normalize,
  medium_or_video, medium_audio, TraceStep,
}
use flickr.Decision.Tracer.{note_if, check, check_if}
use flickr.Decision.Checks.{VideoChecks, find_embedded_subtitle, video_checks}
use flickr.Decision.Target.{
  empty_target, hls_audio, hls_video, video_part, audio_part, segment_part, ladder_part,
}
use flickr.Decision.{Options, decide_with, decide_medium, decide_video, transcode_video}
use flickr.Decision.Verdict.{chosen_media, chosen_track}

module _ (fl : Floats) where
  open fl use {Float}

  module _ (m : MediaInfo Float) (c : ClientCapabilities) (policy : ServerPolicy) (n : ℤ)
      (burn : Option SubtitleTrack) where
    abbrev pub video_results : VideoChecks
    video_results = (video_checks m c []).0

    unfoldable pub encodes_audio : Bool
    unfolding hls_audio note_if
    encodes_audio = (hls_audio m c (not (video_results.audio && video_results.channels)) []).0

    unfoldable pub encodes_video : Bool
    unfolding hls_video note_if
    encodes_video =
        (hls_video m c
          (not (
              video_results.video && video_results.resolution && video_results.bitrate
              && video_results.hdr)
            || is_some burn)
          []).0

    -- The stages, one behind the other; the steps recorded so far do not matter.
    abbrev pub Staged : TranscodeTarget Float → Type 0
    Staged t =
        (s1 s2 s3 : List TraceStep) × (t
          ≡ (ladder_part fl m c
              (segment_part fl m c policy
                (audio_part fl policy encodes_audio
                  (video_part fl m c policy video_results burn encodes_video (empty_target fl m n)
                    s1).0)
                s2).0.target
              s3).0)

    -- A run that neither plays directly nor denies leaves the staged target.
    Staged-transcode_video :
        (s : List TraceStep) (t : TranscodeTarget Float)
        → (transcode_video fl m c policy n burn video_results s).0.target ≡ some t
        → Staged t
    unfolding transcode_video encodes_audio encodes_video
    Staged-transcode_video s t h = (_, _, _, sym (some_inj h))

    target-decide_video :
        (s : List TraceStep) (t : TranscodeTarget Float)
        → (decide_video fl m c policy n burn s).0.target ≡ some t
        → (s' : List TraceStep) × ((transcode_video fl m c policy n burn
              (video_checks m c s).0
              s').0.target
            ≡ some t)
    unfolding decide_video
    target-decide_video s t h = ((video_checks m c s).1, ground arith)

    Staged-decide_video :
        (s : List TraceStep) (t : TranscodeTarget Float)
        → (decide_video fl m c policy n burn s).0.target ≡ some t
        → Staged t
    unfolding video_checks check check_if
    Staged-decide_video s t h =
        let (s', e) = target-decide_video s t h in Staged-transcode_video s' t e

  Staged-decide_medium :
      (m : MediaInfo Float) (c : ClientCapabilities) (policy : ServerPolicy) (opts : Options)
      (n : ℤ) (s : List TraceStep) (t : TranscodeTarget Float)
      → medium_or_video (some m) ≢ medium_audio
      → (decide_medium fl m c policy opts n s).0.target ≡ some t
      → Staged m c policy n (find_embedded_subtitle m opts.burn_subtitle) t
  unfolding decide_medium
  Staged-decide_medium m c policy opts n s t video h =
      Staged-decide_video m c policy n _ _ t (rw (not_audio, if◌then◌else◌) at h)
    where
      not_audio : medium_or_video (some m) == medium_audio ≡ false
      not_audio = ground (arith, bytes_beq_iff (medium_or_video (some m)) medium_audio)

  -- Whatever target `DecideWith` returns for a file that is no audio, is built by the stages.
  pub Staged-decide_with :
      (media : MediaInfo Float) (caps : ClientCapabilities) (policy : ServerPolicy) (opts : Options)
      (t : TranscodeTarget Float)
      → medium_or_video (some (chosen_media fl media opts)) ≢ medium_audio
      → (decide_with fl media caps policy opts).target ≡ some t
      → Staged
          (chosen_media fl media opts)
          (normalize caps)
          policy
          (chosen_track fl media opts)
          (find_embedded_subtitle (chosen_media fl media opts) opts.burn_subtitle)
          t
  unfolding decide_with chosen_media chosen_track
  Staged-decide_with media caps policy opts t video h =
      Staged-decide_medium _ _ policy opts _ _ t video h
