-- ===== src/Decision/Sound.antt =====
-- The transcode of an audio item: one audio stream, and no picture.
use mathlib.Core.Bool.{true≢false}
use flickr.Base.{
  Option, ◌==◌, ◌∙◌, inl, inr, Bool-cases, Bool, true, false, not, ◌&&◌, some, List, [], ◌≡◌, refl,
  sym, ◌≢◌, ◌↔◌, str, ℤ, bytes_beq_iff, bytes_eq, contains_iff, arith, if◌then◌else◌, le_int_iff,
  some_inj,
}
use flickr.Base.Float.{Floats}
use flickr.Model.{
  MediaInfo, SubtitleTrack, ClientCapabilities, ServerPolicy, TranscodeTarget, TraceStep, normalize,
  medium_or_video, medium_audio,
}
use flickr.Decision.Tracer.{note_if, check, check_if}
use flickr.Decision.Checks.{audio_checks}
use flickr.Decision.Target.{
  empty_target, hls_audio, video_part, audio_part, segment_part, ladder_part,
}
use flickr.Decision.Stages.{Staged, Staged-decide_with}
use flickr.Decision.Verdict.{chosen_media, chosen_track, UnderCap, bitrate_iff}
use flickr.Decision.Streams.{CopiesAudio}
use flickr.Decision.{
  Options, decide_with, decide_medium, decide_audio, transcode_audio, audio_target,
}

-- The target of an audio-only session.
pub record IsSound {F : Type 0} (m : MediaInfo F) (c : ClientCapabilities) (n : ℤ)
    (t : TranscodeTarget F) : Type 0 where
  pub audio_only : t.audio_only ≡ true
  pub no_video : t.video_codec ≡ []
  pub no_ladder : t.renditions ≡ []
  pub segments : t.segment_format ≡ str "ts"
  pub track : t.audio_stream_ordinal ≡ n
  pub copies : (t.audio_codec ≡ []) ↔ (CopiesAudio m c × UnderCap m.bitrate_bps c.max_bitrate_bps)

module _ (fl : Floats) where
  open fl use {Float}

  module _ (m : MediaInfo Float) (c : ClientCapabilities) (policy : ServerPolicy) (n : ℤ) where
    encodes : Bool
    encodes =
        let a = (audio_checks m c []).0 in
        (hls_audio m c (not (a.audio && a.channels && a.bitrate)) []).0

    encodes_iff : (encodes ≡ false) ↔ (CopiesAudio m c × UnderCap m.bitrate_bps c.max_bitrate_bps)
    unfolding encodes hls_audio audio_checks note_if check check_if
    encodes_iff = (
      λ h. (
        record {
          decodes = (contains_iff _ _).0 (ground arith);
          streams = (contains_iff _ _).0 (ground arith);
          channels = (le_int_iff _ _).0 (ground arith);
        },
        (bitrate_iff _ _).0 (ground arith),
      ),
      λ (p, under). rw (
        (contains_iff _ _).1 p.decodes,
        (contains_iff _ _).1 p.streams,
        (le_int_iff _ _).1 p.channels,
        (bitrate_iff _ _).1 under,
      ),
    )

    transcoded :
        (s s' : List TraceStep) (t : TranscodeTarget Float)
        → (transcode_audio fl m c policy n (audio_checks m c s).0 s').0.target ≡ some t
        → t ≡ audio_target fl m policy n encodes
    unfolding transcode_audio encodes hls_audio audio_checks note_if check check_if
    transcoded s s' t h = sym (some_inj h)

    target-decide_audio :
        (s : List TraceStep) (t : TranscodeTarget Float)
        → (decide_audio fl m c policy n s).0.target ≡ some t
        → (transcode_audio fl m c policy n (audio_checks m c s).0 (audio_checks m c s).1).0.target
          ≡ some t
    unfolding decide_audio
    target-decide_audio s t h = ground arith

    audio_target-IsSound :
        policy.transcode_audio_codec ≢ [] → IsSound m c n (audio_target fl m policy n encodes)
    unfolding audio_target empty_target
    audio_target-IsSound named = record {
      audio_only = refl;
      no_video = refl;
      no_ladder = refl;
      segments = refl;
      track = refl;
      copies = (λ h. encodes_iff.0 (ground arith), λ p. rw (encodes_iff.1 p, if◌then◌else◌));
    }

    decide_medium-IsSound :
        (opts : Options) (s : List TraceStep) (t : TranscodeTarget Float)
        → medium_or_video (some m) ≡ medium_audio
        → (decide_medium fl m c policy opts n s).0.target ≡ some t
        → policy.transcode_audio_codec ≢ []
        → IsSound m c n t
    unfolding decide_medium
    decide_medium-IsSound opts s t audio h named =
        rw
          (transcoded s _ t (
            target-decide_audio s t (
              rw ((bytes_beq_iff (medium_or_video (some m)) medium_audio).1 audio, if◌then◌else◌) at
                h)))
          (audio_target-IsSound named)

  -- An audio item, under a policy that names its audio codec, is transcoded to an audio-only
  -- target in TS segments, with no video, no ladder and the chosen track; its stream is copied
  -- exactly where the client decodes and streams it and its channels and bitrate fit.
  pub audio_transcode :
      (media : MediaInfo Float) (caps : ClientCapabilities) (policy : ServerPolicy) (opts : Options)
      (t : TranscodeTarget Float)
      → medium_or_video (some (chosen_media fl media opts)) ≡ medium_audio
      → (decide_with fl media caps policy opts).target ≡ some t
      → policy.transcode_audio_codec ≢ []
      → IsSound (chosen_media fl media opts) (normalize caps) (chosen_track fl media opts) t
  unfolding decide_with chosen_media chosen_track
  audio_transcode media caps policy opts t audio h named =
      decide_medium-IsSound _ _ policy _ opts _ t audio h named

  pictured :
      (m : MediaInfo Float) (c : ClientCapabilities) (policy : ServerPolicy) (n : ℤ)
      (burn : Option SubtitleTrack) (t : TranscodeTarget Float)
      → Staged fl m c policy n burn t
      → t.audio_only ≡ false
  unfolding ladder_part segment_part audio_part video_part empty_target
  pictured m c policy n burn t (s1, s2, s3, e) = rw e (ground arith)

  -- A target that DecideWith gives has no video codec where it is for audio only.
  pub no_picture :
      (media : MediaInfo Float) (caps : ClientCapabilities) (policy : ServerPolicy) (opts : Options)
      (t : TranscodeTarget Float)
      → (decide_with fl media caps policy opts).target ≡ some t
      → policy.transcode_audio_codec ≢ []
      → t.audio_only ≡ true
      → t.video_codec ≡ []
  no_picture media caps policy opts t returned named audio =
      let medium = medium_or_video (some (chosen_media fl media opts)) in
      elim (Bool-cases (medium == medium_audio)) [
        | inl heard ↦
            (audio_transcode media caps policy opts t ((bytes_beq_iff medium medium_audio).0 heard)
              returned named).no_video
        | inr seen ↦ absurd (
            true≢false (
              sym audio
              ∙ pictured _ _ policy _ _ t (
                  Staged-decide_with fl media caps policy opts t
                    (λ e. true≢false (sym ((bytes_beq_iff medium medium_audio).1 e) ∙ seen))
                    returned)))
      ]
