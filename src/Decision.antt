-- ===== src/Decision.antt =====
-- internal/decision/decision.go: how a file is played to a client. The children hold the tracer,
-- the checks, the ladder and the stages of the target; what is proved stands in the others.
mod Tracer
mod Checks
mod Ladder
mod Target
mod Verdict
mod Stages
mod Streams
mod Rungs
mod Trail
mod Encode
pub mod Sound
mod Tests
use flickr.Base.{
  Bool, true, false, not, ◌&&◌, ◌||◌, Option, none, some, List, [], ◌∷◌, ◌++◌, Bytes, str, join,
  show_int, ℤ, pos, ◌==◌, bytes_eq, is_some, if◌then◌else◌,
}
use flickr.Base.Float.{Floats}
use flickr.Model.{
  MediaInfo, SubtitleTrack, ClientCapabilities, ServerPolicy, TranscodeTarget, PlayDecision,
  PlayMethod, direct_play, transcode, deny, normalize, medium_or_video, medium_audio,
}
use Tracer.{Traced, ◌>>=◌, ◌>>◌, pure, note}
use Checks.{
  VideoChecks, AudioChecks, select_audio, find_embedded_subtitle, lang_suffix, video_checks,
  audio_checks,
}
use Target.{
  Plan, empty_target, hls_audio, hls_video, video_part, audio_part, segment_part, ladder_part,
}

pub record Options : Type 0 where
  pub audio_track : Option ℤ
  pub burn_subtitle : Option ℤ

abbrev pub no_options : Options
no_options = record { audio_track = none; burn_subtitle = none }

-- `containerOK && videoOK && … && burn == nil`
unfoldable pub all_pass : VideoChecks → Option SubtitleTrack → Bool
all_pass c burn =
    c.container
    && c.video
    && c.audio
    && c.resolution
    && c.bitrate
    && c.hdr
    && c.channels
    && not (is_some burn)

unfoldable pub all_pass_audio : AudioChecks → Bool
all_pass_audio c = c.container && c.audio && c.bitrate && c.channels

-- The return statement: the decision carries the steps recorded so far.
conclude : {F : Type 0} → PlayMethod → Option (TranscodeTarget F) → Traced (PlayDecision F)
conclude method target steps = (record { method = method; target = target; trace = steps }, steps)

note_burn : Option SubtitleTrack → Traced (Unit {0})
note_burn none = pure tt
note_burn (some s) = note (str "subtitle_burn") false (
    str "burning track "
    ++ show_int s.ordinal
    ++ str " ("
    ++ s.codec
    ++ lang_suffix s.language
    ++ str ") — forces video re-encode")

module _ (fl : Floats) where
  open fl use {Float}

  audio_target : MediaInfo Float → ServerPolicy → ℤ → Bool → TranscodeTarget Float
  audio_target media policy selected_audio needs = record (empty_target fl media selected_audio) {
    audio_only = true;
    segment_format = str "ts";
    audio_codec = if needs then policy.transcode_audio_codec else [];
    audio_bitrate_bps = if needs then policy.transcode_audio_bitrate_bps else pos 0;
    fps = fl.lit 0 1;
  }

  transcode_audio :
      MediaInfo Float
      → ClientCapabilities
      → ServerPolicy
      → ℤ
      → AudioChecks
      → Traced (PlayDecision Float)
  unfolding audio_target conclude
  transcode_audio media caps policy selected_audio c = do
    needs ← hls_audio media caps (not (c.audio && c.channels && c.bitrate))
    note (str "verdict") true (
        str "transcode — audio only, "
        ++ (if needs
            then str "re-encode audio to " ++ policy.transcode_audio_codec
            else str "copy audio"))
    conclude transcode (some (audio_target media policy selected_audio needs))

  decide_audio :
      MediaInfo Float → ClientCapabilities → ServerPolicy → ℤ → Traced (PlayDecision Float)
  unfolding transcode_audio conclude
  decide_audio media caps policy selected_audio = do
    c ← audio_checks media caps
    if all_pass_audio c
        then (do
          note (str "verdict") true (str "all checks passed — direct play (audio)")
          conclude direct_play none)
        else if not policy.allow_transcode
        then (do
          note (str "verdict") false (str "incompatible and server policy forbids transcoding")
          conclude deny none)
        else transcode_audio media caps policy selected_audio c

  transcode_video :
      MediaInfo Float
      → ClientCapabilities
      → ServerPolicy
      → ℤ
      → Option SubtitleTrack
      → VideoChecks
      → Traced (PlayDecision Float)
  unfolding conclude
  transcode_video media caps policy selected_audio burn c = do
    needs_audio ← hls_audio media caps (not (c.audio && c.channels))
    needs_video ←
        hls_video media caps (not (c.video && c.resolution && c.bitrate && c.hdr) || is_some burn)
    p ← video_part fl media caps policy c burn needs_video (empty_target fl media selected_audio)
    q ← segment_part fl media caps policy (audio_part fl policy needs_audio p)
    t ← ladder_part fl media caps q.target
    note (str "verdict") true (str "transcode — " ++ join (str ", ") q.parts)
    conclude transcode (some t)

  decide_video :
      MediaInfo Float
      → ClientCapabilities
      → ServerPolicy
      → ℤ
      → Option SubtitleTrack
      → Traced (PlayDecision Float)
  unfolding transcode_video conclude
  decide_video media caps policy selected_audio burn = do
    c ← video_checks media caps
    if all_pass c burn
        then (do
          note (str "verdict") true (str "all checks passed — direct play")
          conclude direct_play none)
        else if not policy.allow_transcode
        then (do
          note (str "verdict") false (str "incompatible and server policy forbids transcoding")
          conclude deny none)
        else transcode_video media caps policy selected_audio burn c

  decide_medium :
      MediaInfo Float
      → ClientCapabilities
      → ServerPolicy
      → Options
      → ℤ
      → Traced (PlayDecision Float)
  unfolding decide_audio decide_video note_burn
  decide_medium media caps policy opts selected_audio =
      let burn = find_embedded_subtitle media opts.burn_subtitle in
      if medium_or_video (some media) == medium_audio
      then decide_audio media caps policy selected_audio
      else (do note_burn burn; decide_video media caps policy selected_audio burn)

  unfoldable pub decide_with :
      MediaInfo Float → ClientCapabilities → ServerPolicy → Options → PlayDecision Float
  unfolding decide_medium
  decide_with media caps policy opts =
      let (chosen, steps) = select_audio media opts.audio_track [] in
      (decide_medium chosen.0 (normalize caps) policy opts chosen.1 steps).0

  unfoldable pub decide : MediaInfo Float → ClientCapabilities → ServerPolicy → PlayDecision Float
  decide media caps policy = decide_with media caps policy no_options
