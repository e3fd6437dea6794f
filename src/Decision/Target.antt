-- ===== src/Decision/Target.antt =====
-- The transcode target of internal/decision/decision.go, stage by stage: which streams are
-- re-encoded, the video part, the audio part, the segment format, the ladder.
use flickr.Base.{
  Bool, true, false, not, ◌&&◌, ◌||◌, Option, none, some, List, [], ◌∷◌, ◌++◌, Bytes, str, join,
  show_int, ℤ, pos, ◌==◌, bytes_eq, contains, lt_int, min_int, if◌then◌else◌,
}
use flickr.Base.Float.{Floats}
use flickr.Model.{MediaInfo, SubtitleTrack, ClientCapabilities, ServerPolicy, TranscodeTarget}
use flickr.Decision.Tracer.{Traced, ◌>>◌, pure, note, note_if}
use flickr.Decision.Checks.{VideoChecks}
use flickr.Decision.Ladder.{build_ladder, describe_ladder}

-- The target under construction, and the parts of its description.
pub record Plan (F : Type 0) : Type 0 where
  pub target : TranscodeTarget F
  pub parts : List Bytes

-- `parts = append(parts, part)` under a condition.
abbrev pub append_if : Bool → Bytes → List Bytes → List Bytes
append_if c part parts = if c then parts ++ part ∷ [] else parts

stream_detail : Bytes → List Bytes → Bytes
stream_detail codec accepted =
    str "client plays "
    ++ codec
    ++ str " directly but not inside HLS (accepts "
    ++ join (str ", ") accepted
    ++ str " in-stream) — re-encoding"

module _ {F : Type 0} where
  -- A stream that is not re-encoded yet is, when the client's HLS player rejects its codec.
  unfoldable pub hls_audio : MediaInfo F → ClientCapabilities → Bool → Traced Bool
  unfolding stream_detail
  hls_audio media caps needs =
      let rejected = not needs && not (contains caps.hls_audio_codecs media.audio_codec) in
      do
        note_if rejected (str "hls_audio") false
            (stream_detail media.audio_codec caps.hls_audio_codecs)
        pure (needs || rejected)

  unfoldable pub hls_video : MediaInfo F → ClientCapabilities → Bool → Traced Bool
  unfolding stream_detail
  hls_video media caps needs =
      let rejected = not needs && not (contains caps.hls_video_codecs media.video_codec) in
      do
        note_if rejected (str "hls_video") false
            (stream_detail media.video_codec caps.hls_video_codecs)
        pure (needs || rejected)

abbrev burn_ordinal : Option SubtitleTrack → Option ℤ
burn_ordinal none = none
burn_ordinal (some s) = some s.ordinal

burn_part : Option SubtitleTrack → List Bytes → List Bytes
burn_part none parts = parts
burn_part (some s) parts = parts ++ (str "burn in subtitle track " ++ show_int s.ordinal) ∷ []

module _ (fl : Floats) where
  open fl use {Float, lit, mul, div, format_3}

  -- `&model.TranscodeTarget{FPS: media.FPS, AudioStreamOrdinal: selectedAudio}`
  unfoldable pub empty_target : MediaInfo Float → ℤ → TranscodeTarget Float
  empty_target media selected_audio = record {
    video_codec = [];
    audio_codec = [];
    height = pos 0;
    video_bitrate_bps = pos 0;
    audio_bitrate_bps = pos 0;
    tonemap = false;
    segment_format = [];
    detelecine = false;
    fps = media.fps;
    audio_only = false;
    audio_stream_ordinal = selected_audio;
    burn_subtitle_ordinal = none;
    renditions = [];
  }

  -- The film rate under a pulldown.
  film_rate : Float → Float
  film_rate fps = div (mul fps (lit 4 1)) (lit 5 1)

  needs_scale : MediaInfo Float → ServerPolicy → VideoChecks → Bool
  needs_scale media policy c = not c.resolution || lt_int policy.max_transcode_height media.height

  encode_video :
      MediaInfo Float
      → ClientCapabilities
      → ServerPolicy
      → VideoChecks
      → Option SubtitleTrack
      → TranscodeTarget Float
      → Traced (Plan Float)
  unfolding film_rate needs_scale
  encode_video media caps policy c burn t =
      let fps = if media.telecine then film_rate media.fps else t.fps in
      let tonemap = not (media.hdr == []) && not c.hdr in
      let scale = needs_scale media policy c in
      let height =
        if scale then min_int caps.max_height policy.max_transcode_height else t.height in
      let parts = append_if scale (str "scale to " ++ show_int height ++ str "p") (
        append_if tonemap (str "tone-map HDR to SDR") (
          append_if media.telecine (str "inverse telecine")
            (burn_part burn ((str "re-encode video to " ++ policy.transcode_video_codec) ∷ [])))) in
      do
        note_if media.telecine (str "telecine") true
            (str "soft telecine detected — inverse telecine to " ++ format_3 fps ++ str " fps")
        pure (record {
          target = record t {
            video_codec = policy.transcode_video_codec;
            video_bitrate_bps = policy.transcode_video_bitrate_bps;
            burn_subtitle_ordinal = burn_ordinal burn;
            detelecine = media.telecine;
            fps = fps;
            tonemap = tonemap;
            height = height;
          };
          parts = parts;
        })

  unfoldable pub video_part :
      MediaInfo Float
      → ClientCapabilities
      → ServerPolicy
      → VideoChecks
      → Option SubtitleTrack
      → Bool
      → TranscodeTarget Float
      → Traced (Plan Float)
  unfolding burn_part encode_video
  video_part media caps policy c burn true t = encode_video media caps policy c burn t
  video_part media caps policy c burn false t =
      pure (record { target = t; parts = str "copy video" ∷ [] })

  unfoldable pub audio_part : ServerPolicy → Bool → Plan Float → Plan Float
  audio_part policy true p = record {
    target = record p.target {
      audio_codec = policy.transcode_audio_codec;
      audio_bitrate_bps = policy.transcode_audio_bitrate_bps;
    };
    parts = p.parts ++ (str "re-encode audio to " ++ policy.transcode_audio_codec) ∷ [];
  }
  audio_part policy false p = record p { parts = p.parts ++ str "copy audio" ∷ [] }

  -- The codec that leaves the server.
  unfoldable pub output_video : MediaInfo Float → TranscodeTarget Float → Bytes
  output_video media t = if t.video_codec == [] then media.video_codec else t.video_codec

  fmp4_segments : Plan Float → Traced (Plan Float)
  fmp4_segments p = do
    note (str "segment_format") true (str "hevc output needs fMP4 segments; client accepts fmp4")
    pure (record p { target = record p.target { segment_format = str "fmp4" } })

  leave_hevc : ServerPolicy → Plan Float → Traced (Plan Float)
  leave_hevc policy p = do
    note (str "segment_format") false (
        str "hevc cannot ride in TS and client rejects fMP4 — re-encoding video to "
        ++ policy.transcode_video_codec)
    pure (record {
      target = record p.target {
        video_codec = policy.transcode_video_codec;
        video_bitrate_bps = policy.transcode_video_bitrate_bps;
        segment_format = str "ts";
      };
      parts = p.parts ++ (str "re-encode hevc to " ++ policy.transcode_video_codec) ∷ [];
    })

  -- TS is the lowest common denominator, and HEVC cannot ride in TS.
  unfoldable pub segment_part :
      MediaInfo Float → ClientCapabilities → ServerPolicy → Plan Float → Traced (Plan Float)
  unfolding fmp4_segments leave_hevc output_video
  segment_part media caps policy p =
      if output_video media p.target == str "hevc"
      then if contains caps.hls_segment_formats (str "fmp4")
        then fmp4_segments p
        else leave_hevc policy p
      else pure (record p { target = record p.target { segment_format = str "ts" } })

  -- A ladder only where the video is re-encoded anyway.
  unfoldable pub ladder_part :
      MediaInfo Float → ClientCapabilities → TranscodeTarget Float → Traced (TranscodeTarget Float)
  ladder_part media caps t =
      let rungs = build_ladder media caps t in
      if t.video_codec == [] then pure t else do
        note (str "abr_ladder") true (str "ladder: " ++ describe_ladder media rungs)
        pure (record t { renditions = rungs })
