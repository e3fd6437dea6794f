-- ===== src/Decision/Tests.antt =====
-- Clients and files of internal/decision/decision_test.go, and the theorems at them.
use flickr.Base.{
  ℕ, Bytes, length, true, false, none, some, List, [], ◌∷◌, ◌≡◌, ◌≢◌, refl, ◌↔◌, ◌⊎◌, inl, inr, str,
  bytes_beq, bytes_eq, ne_by_test, pos, le_int, lt_int, min_int, int_beq, contains, contains_iff,
  Mem, le_int_iff,
}
use flickr.Base.Whole.{whole}
use flickr.Model.{
  MediaInfo, SubtitleTrack, ClientCapabilities, TranscodeTarget, PlayDecision, Rendition,
  direct_play, deny, default_policy, normalize, or_default, or_else, medium_or_video, medium_audio,
}
use flickr.Model.Defaults.{IsNormal, normalize-IsNormal}
use flickr.Pipeline.Job.{Job, playlist_name}
use flickr.Pipeline.Args.Ladder.{build_args}
use flickr.Pipeline.Args.Playlist.{Writes}
use flickr.Pipeline.Args.Decided.{build_args-decide_with}
use flickr.Decision.Tracer.{note, note_if, check, check_if}
use flickr.Decision.Checks.{
  select_audio, find_embedded_subtitle, find_subtitle, video_checks, audio_checks,
}
use flickr.Decision.Ladder.{build_ladder, lower_rungs, offered, kept_height}
use flickr.Decision.Target.{
  empty_target, hls_audio, hls_video, video_part, audio_part, segment_part, ladder_part,
  output_video,
}
use flickr.Decision.{Options, no_options, all_pass, all_pass_audio, decide_with, decide}
use flickr.Decision.Verdict.{chosen_media, chosen_track, Chosen, AsIs, method-decide_with}
use flickr.Decision.Rungs.{LowerRungs, ladder}
use flickr.Decision.Trail.{Explains, trace-Explains}
use flickr.Decision.Encode.{Feeds, hevc_fallback, burn_reencodes}
use flickr.Decision.Sound.{IsSound, audio_transcode}
use flickr.Decision.Streams.{
  StreamsVideo, copied_streams, hevc_carriage, CopiesVideo, CopiesAudio, Carried,
}

abbrev chromecast_v1 : ClientCapabilities
chromecast_v1 = record {
  schema_version = pos 1;
  containers = str "mp4" ∷ [];
  video_codecs = str "h264" ∷ [];
  audio_codecs = str "aac" ∷ str "mp3" ∷ [];
  max_width = pos 1920;
  max_height = pos 1080;
  max_bitrate_bps = pos 0;
  supports_hdr = [];
  max_audio_channels = pos 2;
  hls_segment_formats = [];
  hls_audio_codecs = [];
  hls_video_codecs = [];
}

abbrev modern_tv : ClientCapabilities
modern_tv = record {
  schema_version = pos 1;
  containers = str "mp4" ∷ str "mkv" ∷ [];
  video_codecs = str "h264" ∷ str "hevc" ∷ str "av1" ∷ [];
  audio_codecs = str "aac" ∷ str "ac3" ∷ str "eac3" ∷ [];
  max_width = pos 3840;
  max_height = pos 2160;
  max_bitrate_bps = pos 0;
  supports_hdr = str "hdr10" ∷ str "hlg" ∷ [];
  max_audio_channels = pos 8;
  hls_segment_formats = [];
  hls_audio_codecs = str "aac" ∷ str "ac3" ∷ str "eac3" ∷ [];
  hls_video_codecs = [];
}

abbrev bitmap : SubtitleTrack
bitmap = record {
  ordinal = pos 2;
  codec = str "pgs";
  language = [];
  title = [];
  supported = false;
  external = false;
  object_key = [];
}

abbrev hevc_4k_hdr : MediaInfo ℕ
hevc_4k_hdr = record {
  medium = [];
  container = str "mkv";
  video_codec = str "hevc";
  audio_codec = str "ac3";
  width = pos 3840;
  height = pos 2160;
  duration_seconds = 7200;
  bitrate_bps = pos 25_000_000;
  hdr = str "hdr10";
  audio_channels = pos 6;
  fps = 30;
  telecine = true;
  chapters = [];
  sections = pos 0;
  page_count = pos 0;
  document = none;
  subtitles = bitmap ∷ [];
  audio_tracks = [];
}

-- Opens what a run of `decide_with` calls.
opened : ℕ
unfolding decide decide_with select_audio normalize or_default or_else medium_or_video str bytes_beq
    contains video_checks audio_checks all_pass all_pass_audio check check_if find_embedded_subtitle
    find_subtitle le_int lt_int note int_beq note_if hls_audio hls_video video_part empty_target
    audio_part segment_part output_video ladder_part build_ladder lower_rungs offered kept_height
    min_int chosen_media chosen_track
opened = 0

direct_on_tv : (decide whole hevc_4k_hdr modern_tv default_policy).method ≡ direct_play
unfolding opened
direct_on_tv = refl

-- The target of a decision that has one.
abbrev target_of : PlayDecision ℕ → TranscodeTarget ℕ
target_of d = elim d.target [ none ↦ empty_target whole hevc_4k_hdr (pos 0) | some t ↦ t ]

abbrev for_chromecast : TranscodeTarget ℕ
for_chromecast = target_of (decide_with whole hevc_4k_hdr chromecast_v1 default_policy no_options)

-- Tone-mapped, scaled to 1080p, re-encoded to h264 and aac.
hdr_4k_for_chromecast :
    (for_chromecast.video_codec ≡ str "h264")
    × (for_chromecast.audio_codec ≡ str "aac")
    × (for_chromecast.height ≡ pos 1080)
    × (for_chromecast.tonemap ≡ true)
    × (length for_chromecast.renditions ≡ 3)
unfolding opened
hdr_4k_for_chromecast = (refl, refl, refl, refl, refl)

denied :
    (decide whole hevc_4k_hdr chromecast_v1
      (record default_policy { allow_transcode = false })).method
    ≡ deny
unfolding opened
denied = refl

-- The TV plays this file but for its container, and declares no fMP4.
abbrev in_avi : MediaInfo ℕ
in_avi = record hevc_4k_hdr { container = str "avi" }

abbrev in_avi_target : TranscodeTarget ℕ
in_avi_target = target_of (decide_with whole in_avi modern_tv default_policy no_options)

abbrev burning : Options
burning = record { audio_track = none; burn_subtitle = some (pos 2) }

abbrev burned_target : TranscodeTarget ℕ
burned_target = target_of (decide_with whole hevc_4k_hdr modern_tv default_policy burning)

abbrev audiobook : MediaInfo ℕ
audiobook = record hevc_4k_hdr {
  medium = str "audio";
  video_codec = [];
  hdr = [];
  container = str "m4b";
}

abbrev audiobook_target : TranscodeTarget ℕ
audiobook_target = target_of (decide_with whole audiobook modern_tv default_policy no_options)

hevc_is_video : medium_or_video (some (chosen_media whole hevc_4k_hdr no_options)) ≢ medium_audio
unfolding opened
hevc_is_video = ne_by_test refl

avi_is_video : medium_or_video (some (chosen_media whole in_avi no_options)) ≢ medium_audio
unfolding opened
avi_is_video = ne_by_test refl

burning_is_video : medium_or_video (some (chosen_media whole hevc_4k_hdr burning)) ≢ medium_audio
unfolding opened
burning_is_video = ne_by_test refl

h264_named : str "h264" ≢ []
unfolding opened
h264_named = ne_by_test refl

aac_named : str "aac" ≢ []
unfolding opened
aac_named = ne_by_test refl

method-decide_with_example :
    Chosen
      (AsIs whole (chosen_media whole hevc_4k_hdr no_options) (normalize chromecast_v1) no_options)
      default_policy
      (decide_with whole hevc_4k_hdr chromecast_v1 default_policy no_options).method
method-decide_with_example =
    method-decide_with whole hevc_4k_hdr chromecast_v1 default_policy no_options

copied_streams_example :
    ((for_chromecast.video_codec ≡ [])
      ↔ CopiesVideo (chosen_media whole hevc_4k_hdr no_options) (normalize chromecast_v1) none)
    × ((for_chromecast.audio_codec ≡ [])
        ↔ CopiesAudio (chosen_media whole hevc_4k_hdr no_options) (normalize chromecast_v1))
unfolding opened
copied_streams_example =
    copied_streams whole hevc_4k_hdr chromecast_v1 default_policy no_options for_chromecast
      hevc_is_video refl h264_named aac_named

hevc_carriage_example :
    Carried
      (output_video whole (chosen_media whole hevc_4k_hdr no_options) for_chromecast)
      (str "ts")
      (normalize chromecast_v1)
unfolding opened
hevc_carriage_example =
    hevc_carriage whole hevc_4k_hdr chromecast_v1 default_policy no_options for_chromecast
      hevc_is_video refl h264_named (ne_by_test refl)

ladder_example :
    ((for_chromecast.video_codec ≡ []) × (for_chromecast.renditions ≡ []))
    ⊎ ((for_chromecast.video_codec ≢ [])
        × (lower : List Rendition) × (for_chromecast.renditions
            ≡ record { height = pos 1080; video_bitrate_bps = pos 8_000_000 } ∷ lower)
        × LowerRungs (pos 1080) (pos 1080) lower)
unfolding opened
ladder_example =
    ladder whole hevc_4k_hdr chromecast_v1 default_policy no_options for_chromecast hevc_is_video
      refl

trace-Explains_example :
    Explains whole (decide_with whole hevc_4k_hdr chromecast_v1 default_policy no_options)
trace-Explains_example = trace-Explains whole hevc_4k_hdr chromecast_v1 default_policy no_options

abbrev with_fmp4 : ClientCapabilities
with_fmp4 = record chromecast_v1 { hls_segment_formats = str "fmp4" ∷ [] }

abbrev for_fmp4 : TranscodeTarget ℕ
for_fmp4 = target_of (decide_with whole hevc_4k_hdr with_fmp4 default_policy no_options)

avi_streams : StreamsVideo (chosen_media whole in_avi no_options) (normalize modern_tv) none
unfolding opened
avi_streams = record {
  decodes = (contains_iff _ _).0 refl;
  streams = (contains_iff _ _).0 refl;
  width = (le_int_iff _ _).0 refl;
  height = (le_int_iff _ _).0 refl;
  bitrate = inl ((le_int_iff _ _).0 refl);
  hdr = inr ((contains_iff _ _).0 refl);
  no_burn = refl;
}

no_fmp4 : ¬ Mem (str "fmp4") (str "ts" ∷ [])
unfolding opened
no_fmp4 m = cc ((contains_iff (str "ts" ∷ []) (str "fmp4")).1 m)

-- A 2160p film with pulldown goes out at 2160p, pulldown included.
hevc_fallback_example :
    (in_avi_target.video_codec ≡ str "h264")
    × (in_avi_target.height ≡ pos 0)
    × (in_avi_target.detelecine ≡ false)
unfolding opened
hevc_fallback_example =
    hevc_fallback whole in_avi modern_tv default_policy no_options in_avi_target avi_is_video refl
      refl no_fmp4 avi_streams

burn_reencodes_example :
    (burned_target.video_codec ≡ str "h264")
    × (burned_target.burn_subtitle_ordinal ≡ some (pos 2))
    × Feeds hevc_4k_hdr burning.audio_track burned_target.audio_stream_ordinal
    × (burned_target.audio_only ≡ false)
unfolding opened
burn_reencodes_example =
    burn_reencodes whole hevc_4k_hdr modern_tv default_policy burning burned_target burning_is_video
      refl bitmap refl

audio_transcode_example :
    IsSound (chosen_media whole audiobook no_options) (normalize modern_tv) (pos 0) audiobook_target
unfolding opened
audio_transcode_example =
    audio_transcode whole audiobook modern_tv default_policy no_options audiobook_target refl refl
      aac_named

normalize-IsNormal_example :
    IsNormal (normalize modern_tv) × (IsNormal modern_tv → normalize modern_tv ≡ modern_tv)
normalize-IsNormal_example = normalize-IsNormal modern_tv

-- The film for the Chromecast, from half a minute on.
abbrev cast_job : Job ℕ
cast_job = record {
  input_url = str "http://bucket/film.mkv";
  target = for_chromecast;
  output_dir = str "/streams/0a1b";
  seek_seconds = 30;
  hw = none;
}

build_args-decide_with_example :
    (args : List Bytes) × (build_args whole cast_job ≡ some args)
    × Writes cast_job.output_dir (playlist_name cast_job) args
unfolding opened
build_args-decide_with_example =
    build_args-decide_with whole hevc_4k_hdr chromecast_v1 default_policy no_options cast_job refl
      aac_named
