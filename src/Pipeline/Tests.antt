-- ===== src/Pipeline/Tests.antt =====
-- Sessions of internal/pipeline/pipeline.go: two transcodes, one of them reaped, and the arguments of
-- a copy.
use flickr.Base.{
  ℕ, pos, true, false, none, some, [], ◌∷◌, ◌≡◌, refl, str, bytes_eq, bytes_beq, lt_int, ◌+ℤ◌,
  negate, show, show_int, join, cut_prefix, split_byte,
}
use flickr.Base.Assoc.{keys, get, put, delete, without}
use flickr.Base.FilePath.{clean}
use flickr.Base.Whole.{whole}
use flickr.Model.{TranscodeTarget}
use flickr.Pipeline.Job.{HwAccel, join_path, abr, hw_encoder, resolve_encoder}
use flickr.Pipeline.Args.{
  hw_init_args, join_filters, scale_filter, hw_filters, picture_args, video_args, single_args,
  input_args, seek_split, shared_filters, gop_args, preset_args, bitrate_args, audio_map,
  audio_codec_args, hls_output_args,
}
use flickr.Pipeline.Args.Ladder.{build_args}
use flickr.Pipeline.Sessions.{
  SessionManager, new_session_manager, session_for, register, sub, idle_session_ids, create, stop,
  stop_each, reap_idle, stop_all,
}
use flickr.Pipeline.Sessions.Live.{Reaches, started, created, Live, awake, reap_idle-awake}

-- Scaled, on a VAAPI device.
abbrev scaled : TranscodeTarget ℕ
scaled = record {
  video_codec = str "h264";
  audio_codec = [];
  height = pos 720;
  video_bitrate_bps = pos 3000000;
  audio_bitrate_bps = pos 0;
  tonemap = false;
  segment_format = str "ts";
  detelecine = false;
  fps = 24;
  audio_only = false;
  audio_stream_ordinal = pos 1;
  burn_subtitle_ordinal = none;
  renditions = [];
}

abbrev on_vaapi : HwAccel
on_vaapi = record {
  kind = str "vaapi";
  device = str "/dev/dri/renderD128";
  encoders = (str "h264", str "h264_vaapi") ∷ [];
}

scaled_args :
    build_args whole (record {
      input_url = str "http://b/f.mkv";
      target = scaled;
      output_dir = str "/s/1";
      seek_seconds = 30;
      hw = some on_vaapi;
    })
    ≡ some (
        str "-nostdin"
        ∷ str "-hide_banner"
        ∷ str "-loglevel"
        ∷ str "warning"
        ∷ str "-init_hw_device"
        ∷ str "vaapi=va:/dev/dri/renderD128"
        ∷ str "-filter_hw_device"
        ∷ str "va"
        ∷ str "-ss"
        ∷ str "30.000"
        ∷ str "-i"
        ∷ str "http://b/f.mkv"
        ∷ str "-vf"
        ∷ str "scale=-2:720,format=nv12,hwupload"
        ∷ str "-map"
        ∷ str "0:v:0"
        ∷ str "-c:v"
        ∷ str "h264_vaapi"
        ∷ str "-b:v"
        ∷ str "3000000"
        ∷ str "-g"
        ∷ str "96"
        ∷ str "-sc_threshold"
        ∷ str "0"
        ∷ str "-map"
        ∷ str "0:a:1"
        ∷ str "-c:a"
        ∷ str "copy"
        ∷ str "-f"
        ∷ str "hls"
        ∷ str "-hls_time"
        ∷ str "4"
        ∷ str "-hls_playlist_type"
        ∷ str "event"
        ∷ str "-hls_segment_filename"
        ∷ str "/s/1/seg%05d.ts"
        ∷ str "/s/1/index.m3u8"
        ∷ [])
unfolding build_args input_args seek_split hw_init_args single_args video_args shared_filters
    scale_filter hw_filters hw_encoder resolve_encoder get picture_args join_filters preset_args
    bitrate_args gop_args audio_map audio_codec_args hls_output_args join_path clean show show_int
    abr str bytes_beq cut_prefix lt_int join split_byte
scaled_args = refl

abbrev fresh : SessionManager ℕ
fresh = new_session_manager (str "/streams") none

abbrev first : SessionManager ℕ
first = (create fresh (str "aa") true (pos 0) (str "http://b/f.mkv") scaled 0).1

abbrev both : SessionManager ℕ
both = (create first (str "bb") true (pos 5) (str "http://b/g.mkv") scaled 0).1

both_reached : Reaches both
unfolding create session_for register new_session_manager get put str bytes_beq
both_reached = created first (str "bb") true (pos 5) (str "http://b/g.mkv") scaled 0 refl (
    created fresh (str "aa") true (pos 0) (str "http://b/f.mkv") scaled 0 refl
      (started (str "/streams") none))

-- The first of them has not been asked for in eight.
reap_idle-awake_example :
    Live both
    × ((reap_idle both (pos 9) (pos 8)).1.last_access ≡ awake both.last_access (pos 9) (pos 8))
    × ((reap_idle both (pos 9) (pos 8)).1.running ≡ keys (awake both.last_access (pos 9) (pos 8)))
    × ((stop_all both).sessions ≡ [])
    × ((stop_all both).running ≡ [])
reap_idle-awake_example = reap_idle-awake both (pos 9) (pos 8) both_reached

reaped_first : (reap_idle both (pos 9) (pos 8)).1.running ≡ str "bb" ∷ []
unfolding create session_for register new_session_manager get put str bytes_beq reap_idle
    idle_session_ids sub lt_int ◌+ℤ◌ negate stop_each stop delete without
reaped_first = refl
