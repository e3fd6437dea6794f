-- ===== src/Scanner/Sidecar.antt =====
-- internal/scanner/sidecar.go: the subtitle files beside a video, and their tracks. strings.ToLower is
-- `lower`.
pub mod Attached
use flickr.Base.{
  ℕ, zero, suc, ◌+◌, ◌-◌, ℤ, pos, Bool, true, false, not, ◌&&◌, ◌||◌, Option, none, some, List, [],
  ◌∷◌, ◌++◌, map, Bytes, str, nat_eq, bytes_eq, ◌==◌, if◌then◌else◌, leb, is_empty, is_some, length,
  take, contains, join, cut_prefix, split_byte, ◌>>=◌,
}
use flickr.Base.Sort.{bytes_lt, sort_by}
use flickr.Base.FilePath.{base, ext, dir}
use flickr.Model.{MediaInfo, SubtitleTrack}
use mathlib.Core.List.{reverse}

-- An object of the bucket.
pub record SidecarFile : Type 0 where
  pub key : Bytes
  pub etag : Bytes

unfoldable pub lookup : Bytes → List (Bytes × Bytes) → Option Bytes
lookup k [] = none
lookup k ((j, v) ∷ rest) = if j == k then some v else lookup k rest

-- subtitleExts
abbrev pub subtitle_exts : List (Bytes × Bytes)
subtitle_exts =
    (str ".srt", str "subrip")
    ∷ (str ".ass", str "ass")
    ∷ (str ".ssa", str "ass")
    ∷ (str ".vtt", str "webvtt")
    ∷ []

-- langCodes
abbrev pub lang_codes : List (Bytes × Bytes)
lang_codes =
    (str "en", str "eng")
    ∷ (str "es", str "spa")
    ∷ (str "fr", str "fre")
    ∷ (str "de", str "ger")
    ∷ (str "it", str "ita")
    ∷ (str "pt", str "por")
    ∷ (str "ru", str "rus")
    ∷ (str "ja", str "jpn")
    ∷ (str "zh", str "chi")
    ∷ (str "ko", str "kor")
    ∷ (str "nl", str "dut")
    ∷ (str "sv", str "swe")
    ∷ (str "no", str "nor")
    ∷ (str "da", str "dan")
    ∷ (str "fi", str "fin")
    ∷ (str "pl", str "pol")
    ∷ (str "cs", str "cze")
    ∷ (str "tr", str "tur")
    ∷ (str "ar", str "ara")
    ∷ (str "he", str "heb")
    ∷ (str "hi", str "hin")
    ∷ (str "el", str "gre")
    ∷ (str "hu", str "hun")
    ∷ (str "ro", str "rum")
    ∷ (str "th", str "tha")
    ∷ (str "vi", str "vie")
    ∷ (str "id", str "ind")
    ∷ (str "uk", str "ukr")
    ∷ []

-- threeLetterCodes: the codes of the table, and other spellings of them.
abbrev pub three_letter_codes : List Bytes
three_letter_codes =
    map (λ kv. kv.1) lang_codes
    ++ (str "fra"
        ∷ str "deu"
        ∷ str "ita"
        ∷ str "spa"
        ∷ str "nld"
        ∷ str "swe"
        ∷ str "ces"
        ∷ str "zho"
        ∷ str "ell"
        ∷ str "ron"
        ∷ [])

-- strings.TrimSuffix
unfoldable pub trim_suffix : Bytes → Bytes → Bytes
trim_suffix suffix s = elim (cut_prefix (reverse s) (reverse suffix)) [
  | none ↦ s
  | some front ↦ reverse front
]

-- The video's name without its extension.
abbrev pub stem_of : Bytes → Bytes
stem_of video = trim_suffix (ext video) (base video)

unfoldable pub belongs : Bytes → SidecarFile → Bool
belongs video s = dir s.key == dir video && elim (cut_prefix (base s.key) (stem_of video)) [
  | none ↦ false
  | some rest ↦ is_some (cut_prefix rest (b'.' ∷ []))
]

belonging : Bytes → List SidecarFile → List SidecarFile
belonging video [] = []
belonging video (s ∷ subs) =
    let rest = belonging video subs in if belongs video s then s ∷ rest else rest

-- In the order of the keys.
unfoldable pub match_sidecars : Bytes → List SidecarFile → List SidecarFile
unfolding belonging
match_sidecars video subs = sort_by (λ a b. bytes_lt a.key b.key) (belonging video subs)

unfoldable pub sidecar_signature : List SidecarFile → Bytes
sidecar_signature subs = join (b';' ∷ []) (map (λ s. s.key ++ b'=' ∷ s.etag) subs)

-- strings.Trim(s, ".")
drop_dots : Bytes → Bytes
drop_dots [] = []
drop_dots (c ∷ s) = let rest = drop_dots s in if c == b'.' then rest else c ∷ s

abbrev trim_dots : Bytes → Bytes
trim_dots s = reverse (drop_dots (reverse (drop_dots s)))

-- strings.TrimPrefix
abbrev trim_prefix : Bytes → Bytes → Bytes
trim_prefix prefix s = elim (cut_prefix s prefix) [ none ↦ s | some rest ↦ rest ]

-- Those that are not beside the video.
unfoldable pub embedded : List SubtitleTrack → List SubtitleTrack
embedded [] = []
embedded (t ∷ ts) = let rest = embedded ts in if t.external then rest else t ∷ rest

module _ (lower : Bytes → Bytes) where
  unfoldable pub is_subtitle_key : Bytes → Bool
  is_subtitle_key key =
      not (is_some (cut_prefix (base key) (str "._")))
      && is_some (lookup (lower (ext key)) subtitle_exts)

  -- The first token that is known.
  language_of : List Bytes → Bytes
  language_of [] = []
  language_of (tok ∷ toks) =
      let rest = language_of toks in
      elim (lookup (lower tok) lang_codes) [
        | some code ↦ code
        | none ↦ if contains three_letter_codes (lower tok) then lower tok else rest
      ]

  unfoldable pub sidecar_language : Bytes → Bytes
  unfolding language_of
  sidecar_language suffix = language_of (split_byte b'.' suffix)

  -- What stands between the stem and the extension: none is the panic of a slice whose end is
  -- negative.
  unfoldable pub suffix_chain : Bytes → Bytes → Bytes → Option Bytes
  unfolding drop_dots
  suffix_chain stem e name =
      if leb (length stem + length e) (length name)
      then some (trim_dots (take (length name - length stem - length e) (trim_prefix stem name)))
      else none

  unfoldable pub external_track : SidecarFile → Bytes → Bytes → ℕ → SubtitleTrack
  external_track s codec suffix ordinal = record {
    ordinal = pos ordinal;
    codec = codec;
    language = sidecar_language suffix;
    title = if is_empty suffix then base s.key else suffix;
    supported = true;
    external = true;
    object_key = s.key;
  }

  unfoldable pub external_tracks : Bytes → List SidecarFile → ℕ → Option (List SubtitleTrack)
  external_tracks video [] next = some []
  external_tracks video (s ∷ subs) next = elim (lookup (lower (ext (base s.key))) subtitle_exts) [
    | none ↦ external_tracks video subs next
    | some codec ↦
        suffix_chain (stem_of video) (lower (ext (base s.key))) (base s.key) >>= λ suffix.
        external_tracks video subs (suc next) >>= λ tracks.
        some (external_track s codec suffix next ∷ tracks)
  ]

  -- What becomes of the info that is pointed to; a nil one stays nil.
  unfoldable pub attach_sidecars :
      {F : Type 0} → Option (MediaInfo F) → Bytes → List SidecarFile → Option (Option (MediaInfo F))
  attach_sidecars none video subs = some none
  attach_sidecars (some info) video subs =
      let kept = embedded info.subtitles in
      external_tracks video subs (length kept) >>= λ tracks.
      some (some (record info { subtitles = kept ++ tracks }))
