-- ===== src/Scanner/Tests.antt =====
-- Subtitles of internal/scanner/sidecar.go, in upper and in lower case.
use flickr.Base.{
  ℕ, ◌+◌, pos, true, false, ◌&&◌, none, some, List, [], ◌∷◌, ◌++◌, ◌≡◌, refl, Bytes, str, nat_eq,
  if◌then◌else◌, leb, length, cut_prefix, split_byte, join, bytes_beq, arith,
}
use flickr.Model.{MediaInfo, SubtitleTrack}
use flickr.Base.Sort.{bytes_lt, sort_by, insert_by}
use flickr.Base.FilePath.{base, ext, dir, clean}
use flickr.Scanner.Sidecar.{
  external_track, sidecar_language, suffix_chain, trim_suffix, belongs, SidecarFile, lookup,
  match_sidecars, embedded, external_tracks, attach_sidecars,
}
use flickr.Scanner.Sidecar.Attached.{Numbered, attach_sidecars-Attached}

-- strings.ToLower on ASCII.
abbrev ascii_lower : Bytes → Bytes
ascii_lower [] = []
ascii_lower (c ∷ s) = (if leb b'A' c && leb c b'Z' then c + 32 else c) ∷ ascii_lower s

length-ascii_lower : (s : Bytes) → length (ascii_lower s) ≡ length s
length-ascii_lower [] = refl
length-ascii_lower (c ∷ s) = omega (arith, length-ascii_lower s)

abbrev old_track : SubtitleTrack
old_track = record {
  ordinal = pos 1;
  codec = str "ass";
  language = [];
  title = [];
  supported = true;
  external = true;
  object_key = str "gone.ass";
}

abbrev own_track : SubtitleTrack
own_track = record {
  ordinal = pos 0;
  codec = str "subrip";
  language = str "eng";
  title = [];
  supported = true;
  external = false;
  object_key = [];
}

abbrev probed : MediaInfo ℕ
probed = record {
  medium = [];
  container = str "mkv";
  video_codec = str "h264";
  audio_codec = str "aac";
  width = pos 1920;
  height = pos 1080;
  duration_seconds = 5400;
  bitrate_bps = pos 4_000_000;
  hdr = [];
  audio_channels = pos 2;
  fps = 24;
  telecine = false;
  chapters = [];
  sections = pos 0;
  page_count = pos 0;
  document = none;
  subtitles = own_track ∷ old_track ∷ [];
  audio_tracks = [];
}

abbrev beside : List SidecarFile
beside =
    record { key = str "m/Heat.fr.SRT"; etag = str "2" }
    ∷ record { key = str "m/Heat.en.forced.srt"; etag = str "1" }
    ∷ record { key = str "m/Heat 2.srt"; etag = str "3" }
    ∷ record { key = str "n/Heat.srt"; etag = str "4" }
    ∷ []

attach_sidecars-Attached_example :
    (tracks : List SubtitleTrack) × (attach_sidecars ascii_lower
        (some probed)
        (str "m/Heat.mkv")
        (match_sidecars (str "m/Heat.mkv") beside)
      ≡ some (some (record probed { subtitles = embedded probed.subtitles ++ tracks })))
    × Numbered ascii_lower
        (length (embedded probed.subtitles))
        (match_sidecars (str "m/Heat.mkv") beside)
        tracks
    × ((later : List SidecarFile)
        → attach_sidecars ascii_lower
            (some (record probed { subtitles = embedded probed.subtitles ++ tracks }))
            (str "m/Heat.mkv")
            later
          ≡ attach_sidecars ascii_lower (some probed) (str "m/Heat.mkv") later)
attach_sidecars-Attached_example =
    attach_sidecars-Attached ascii_lower (λ e codec known. omega (arith, length-ascii_lower e))
      probed (str "m/Heat.mkv") beside

-- The languages are those of ISO 639-2, the titles what stands behind the stem.
attached :
    external_tracks ascii_lower (str "m/Heat.mkv") (match_sidecars (str "m/Heat.mkv") beside) 1
    ≡ some (
        record old_track {
          codec = str "subrip";
          language = str "eng";
          title = str "en.forced";
          object_key = str "m/Heat.en.forced.srt";
        }
        ∷ record old_track {
          ordinal = pos 2;
          codec = str "subrip";
          language = str "fre";
          title = str "fr";
          object_key = str "m/Heat.fr.SRT";
        }
        ∷ [])
unfolding external_tracks external_track sidecar_language suffix_chain lookup trim_suffix
    match_sidecars belongs sort_by insert_by base ext dir clean cut_prefix split_byte join str
    bytes_lt bytes_beq
attached = refl
