-- ===== src/Decision/Checks.antt =====
-- The pass/fail checks of internal/decision/decision.go: track selection, and the questions that
-- a video file and an audio file raise.
use flickr.Base.{
  ℕ, Bool, true, not, ◌&&◌, Option, none, some, List, [], ◌∷◌, ◌++◌, Bytes, str, join, show,
  show_int, ℤ, pos, negsuc, ◌==◌, int_eq, bytes_eq, contains, get_elem?, is_empty, le_int, lt_int,
  quot, if◌then◌else◌,
}
use flickr.Model.{MediaInfo, AudioTrack, SubtitleTrack, ClientCapabilities}
use flickr.Decision.Tracer.{Traced, ◌>>=◌, ◌>>◌, pure, check, check_if, note}

abbrev separator : Bytes
separator = str ", "

-- "file is a; client plays b, c"
plays_detail : Bytes → List Bytes → Bytes
plays_detail file client = str "file is " ++ file ++ str "; client plays " ++ join separator client

-- describeAudioTrack
unfoldable pub describe_audio_track : AudioTrack → Bytes
describe_audio_track t =
    (if t.channels == pos 0
      then []
      else if t.channels == pos 6
      then str " 5.1"
      else if t.channels == pos 8
      then str " 7.1"
      else str " " ++ show_int t.channels ++ str ".0")
    ++ (if t.language == [] then [] else str " (" ++ t.language ++ str ")")

-- langSuffix
unfoldable pub lang_suffix : Bytes → Bytes
lang_suffix lang = if lang == [] then [] else str ", " ++ lang

-- findEmbeddedSubtitle: the first embedded track of that ordinal.
unfoldable pub find_subtitle : ℤ → List SubtitleTrack → Option SubtitleTrack
find_subtitle n [] = none
find_subtitle n (s ∷ rest) =
    if s.ordinal == n && not s.external then some s else find_subtitle n rest

unfoldable pub find_embedded_subtitle : {F : Type 0} → MediaInfo F → Option ℤ → Option SubtitleTrack
find_embedded_subtitle media none = none
find_embedded_subtitle media (some n) = find_subtitle n media.subtitles

module _ {F : Type 0} where
  -- The chosen track's codec and channels take the place of the first one's.
  use_track : MediaInfo F → ℕ → Option AudioTrack → Traced (MediaInfo F × ℤ)
  use_track media n none = pure (media, pos 0)
  use_track media n (some t) = do
    note (str "audio_track") true
        (str "track " ++ show n ++ str " selected: " ++ t.codec ++ describe_audio_track t)
    pure (record media { audio_codec = t.codec; audio_channels = t.channels }, pos n)

  unfoldable pub select_audio : MediaInfo F → Option ℤ → Traced (MediaInfo F × ℤ)
  unfolding use_track
  select_audio media none = pure (media, pos 0)
  select_audio media (some (negsuc n)) = pure (media, pos 0)
  select_audio media (some (pos n)) = use_track media n (get_elem? media.audio_tracks n)

  check_container : MediaInfo F → ClientCapabilities → Traced Bool
  check_container media caps =
      check (str "container") (contains caps.containers media.container)
        (plays_detail media.container caps.containers)

  check_video_codec : MediaInfo F → ClientCapabilities → Traced Bool
  check_video_codec media caps =
      check (str "video_codec") (contains caps.video_codecs media.video_codec)
        (plays_detail media.video_codec caps.video_codecs)

  check_audio_codec : MediaInfo F → ClientCapabilities → Traced Bool
  check_audio_codec media caps =
      check (str "audio_codec") (contains caps.audio_codecs media.audio_codec)
        (plays_detail media.audio_codec caps.audio_codecs)

  check_resolution : MediaInfo F → ClientCapabilities → Traced Bool
  check_resolution media caps =
      check (str "resolution")
        (le_int media.width caps.max_width && le_int media.height caps.max_height)
        (str "file is "
          ++ show_int media.width
          ++ str "x"
          ++ show_int media.height
          ++ str "; client max "
          ++ show_int caps.max_width
          ++ str "x"
          ++ show_int caps.max_height)

  check_bitrate : MediaInfo F → ClientCapabilities → Traced Bool
  check_bitrate media caps =
      check_if (lt_int (pos 0) caps.max_bitrate_bps) (str "bitrate")
        (le_int media.bitrate_bps caps.max_bitrate_bps)
        (str "file is "
          ++ show_int (quot media.bitrate_bps 1000)
          ++ str " kbps; client cap "
          ++ show_int (quot caps.max_bitrate_bps 1000)
          ++ str " kbps")

  check_hdr : MediaInfo F → ClientCapabilities → Traced Bool
  check_hdr media caps =
      check_if (not (media.hdr == [])) (str "hdr") (contains caps.supports_hdr media.hdr) (
        str "file is "
        ++ media.hdr
        ++ str "; client supports "
        ++ (if is_empty caps.supports_hdr then str "none" else join separator caps.supports_hdr))

  check_channels : MediaInfo F → ClientCapabilities → Traced Bool
  check_channels media caps =
      check (str "audio_channels") (le_int media.audio_channels caps.max_audio_channels) (
        str "file has "
        ++ show_int media.audio_channels
        ++ str " channels; client max "
        ++ show_int caps.max_audio_channels)

-- The results of the checks on a video file.
pub record VideoChecks : Type 0 where
  pub container : Bool
  pub video : Bool
  pub audio : Bool
  pub resolution : Bool
  pub bitrate : Bool
  pub hdr : Bool
  pub channels : Bool

-- The results of the checks on an audio file.
pub record AudioChecks : Type 0 where
  pub container : Bool
  pub audio : Bool
  pub bitrate : Bool
  pub channels : Bool

module _ {F : Type 0} where
  unfoldable pub video_checks : MediaInfo F → ClientCapabilities → Traced VideoChecks
  unfolding plays_detail check_container check_video_codec check_audio_codec check_resolution
      check_bitrate check_hdr check_channels
  video_checks media caps = do
    container ← check_container media caps
    video ← check_video_codec media caps
    audio ← check_audio_codec media caps
    resolution ← check_resolution media caps
    bitrate ← check_bitrate media caps
    hdr ← check_hdr media caps
    channels ← check_channels media caps
    pure (record {
      container = container;
      video = video;
      audio = audio;
      resolution = resolution;
      bitrate = bitrate;
      hdr = hdr;
      channels = channels;
    })

  unfoldable pub audio_checks : MediaInfo F → ClientCapabilities → Traced AudioChecks
  unfolding plays_detail check_container check_audio_codec check_bitrate check_channels
  audio_checks media caps = do
    container ← check_container media caps
    audio ← check_audio_codec media caps
    bitrate ← check_bitrate media caps
    channels ← check_channels media caps
    pure (record { container = container; audio = audio; bitrate = bitrate; channels = channels })
