-- ===== src/Model.antt =====
-- internal/model/model.go: media info, client capabilities, server policy, play decisions.
-- A string is its bytes; `int` and `int64` are `ℤ`, for a probe and a client may send any; the
-- float64 of a duration is `F`.
pub mod Cfi
pub mod Defaults
use flickr.Base.{
  ℕ, Bool, true, false, Option, none, some, List, [], ◌∷◌, Bytes, String, ℤ, pos, ◌==◌, int_eq,
  bytes_eq, str, lt_int, if◌then◌else◌, is_empty, ◌||◌,
}

abbrev pub capability_schema_version : ℤ
capability_schema_version = pos 1

abbrev pub medium_video : Bytes
medium_video = str "video"

abbrev pub medium_audio : Bytes
medium_audio = str "audio"

abbrev pub medium_text : Bytes
medium_text = str "text"

pub record Chapter (F : Type 0) : Type 0 where
  pub start_seconds : F
  pub title : Bytes

pub record Document : Type 0 where
  pub title : Bytes
  pub creator : Bytes
  pub language : Bytes

pub record AudioTrack : Type 0 where
  pub ordinal : ℤ
  pub codec : Bytes
  pub language : Bytes
  pub title : Bytes
  pub channels : ℤ
  pub default : Bool

pub record SubtitleTrack : Type 0 where
  pub ordinal : ℤ
  pub codec : Bytes
  pub language : Bytes
  pub title : Bytes
  pub supported : Bool
  pub external : Bool
  pub object_key : Bytes

pub record MediaInfo (F : Type 0) : Type 0 where
  pub medium : Bytes
  pub container : Bytes
  pub video_codec : Bytes
  pub audio_codec : Bytes
  pub width : ℤ
  pub height : ℤ
  pub duration_seconds : F
  pub bitrate_bps : ℤ
  pub hdr : Bytes
  pub audio_channels : ℤ
  pub fps : F
  pub telecine : Bool
  pub chapters : List (Chapter F)
  pub sections : ℤ
  pub page_count : ℤ
  pub document : Option Document
  pub subtitles : List SubtitleTrack
  pub audio_tracks : List AudioTrack

-- The pointer receiver may be nil.
unfoldable pub medium_or_video : {F : Type 0} → Option (MediaInfo F) → Bytes
medium_or_video none = medium_video
medium_or_video (some m) = if m.medium == [] then medium_video else m.medium

pub record Locator (F : Type 0) : Type 0 where
  pub cfi : Bytes
  pub section : ℤ
  pub page : ℤ
  pub fraction : F

pub record Enrichment : Type 0 where
  pub version : ℤ
  pub tmdb_id : ℤ
  pub title : Bytes
  pub year : ℤ
  pub overview : Bytes
  pub has_poster : Bool
  pub genres : List Bytes
  pub has_backdrop : Bool
  pub runtime_minutes : ℤ
  pub certification : Bytes
  pub cast : List Bytes
  pub episode_title : Bytes
  pub episode_overview : Bytes
  pub has_still : Bool

pub record ClientCapabilities : Type 0 where
  pub schema_version : ℤ
  pub containers : List Bytes
  pub video_codecs : List Bytes
  pub audio_codecs : List Bytes
  pub max_width : ℤ
  pub max_height : ℤ
  pub max_bitrate_bps : ℤ
  pub supports_hdr : List Bytes
  pub max_audio_channels : ℤ
  pub hls_segment_formats : List Bytes
  pub hls_audio_codecs : List Bytes
  pub hls_video_codecs : List Bytes

-- `if x == 0 { x = d }`
unfoldable pub or_default : ℤ → ℤ → ℤ
or_default x d = if x == pos 0 then d else x

-- `if len(xs) == 0 { xs = ds }`
unfoldable pub or_else : List Bytes → List Bytes → List Bytes
or_else xs ds = if is_empty xs then ds else xs

unfoldable pub normalize : ClientCapabilities → ClientCapabilities
normalize c = record c {
  schema_version =
      if c.schema_version == pos 0 || lt_int capability_schema_version c.schema_version
      then capability_schema_version
      else c.schema_version;
  max_width = or_default c.max_width (pos 3840);
  max_height = or_default c.max_height (pos 2160);
  max_audio_channels = or_default c.max_audio_channels (pos 8);
  hls_segment_formats = or_else c.hls_segment_formats (str "ts" ∷ []);
  hls_audio_codecs = or_else c.hls_audio_codecs (str "aac" ∷ []);
  hls_video_codecs = or_else c.hls_video_codecs c.video_codecs;
}

pub record ServerPolicy : Type 0 where
  pub allow_transcode : Bool
  pub max_transcode_height : ℤ
  pub transcode_video_codec : Bytes
  pub transcode_audio_codec : Bytes
  pub transcode_video_bitrate_bps : ℤ
  pub transcode_audio_bitrate_bps : ℤ

abbrev pub default_policy : ServerPolicy
default_policy = record {
  allow_transcode = true;
  max_transcode_height = pos 1080;
  transcode_video_codec = str "h264";
  transcode_audio_codec = str "aac";
  transcode_video_bitrate_bps = pos 8_000_000;
  transcode_audio_bitrate_bps = pos 192_000;
}

pub data PlayMethod : Type 0 where
  direct_play transcode deny : PlayMethod

pub record TraceStep : Type 0 where
  pub check : Bytes
  pub passed : Bool
  pub detail : Bytes

pub record Rendition : Type 0 where
  pub height : ℤ
  pub video_bitrate_bps : ℤ

-- An empty codec means "copy", height 0 "keep".
pub record TranscodeTarget (F : Type 0) : Type 0 where
  pub video_codec : Bytes
  pub audio_codec : Bytes
  pub height : ℤ
  pub video_bitrate_bps : ℤ
  pub audio_bitrate_bps : ℤ
  pub tonemap : Bool
  pub segment_format : Bytes
  pub detelecine : Bool
  pub fps : F
  pub audio_only : Bool
  pub audio_stream_ordinal : ℤ
  pub burn_subtitle_ordinal : Option ℤ
  pub renditions : List Rendition

pub record PlayDecision (F : Type 0) : Type 0 where
  pub method : PlayMethod
  pub target : Option (TranscodeTarget F)
  pub trace : List TraceStep

pub record Identity : Type 0 where
  pub kind : Bytes
  pub title : Bytes
  pub author : Bytes
  pub year : ℤ
  pub season : ℤ
  pub episode : ℤ
  pub part : ℤ
  pub track_title : Bytes
