-- ===== src/Pipeline/Args.antt =====
-- internal/pipeline/pipeline.go and hwdetect.go: the arguments that a job runs ffmpeg with. none is a
-- panic of an index.
pub mod Ladder
pub mod Playlist
pub mod Decided
use flickr.Base.{
  ℕ, ◌*◌, ℤ, pos, lt_int, Bool, true, false, not, ◌&&◌, ◌||◌, Option, none, some, List, [], ◌∷◌,
  ◌++◌, Bytes, str, bytes_eq, ◌==◌, if◌then◌else◌, is_empty, is_some, show, show_int, cut_prefix,
  ◌>>=◌,
}
use flickr.Base.Float.{Floats}
use flickr.Model.{TranscodeTarget}
use flickr.Pipeline.Job.{HwAccel, Job, join_path, hw_encoder, abr, resolve_encoder}
use mathlib.Core.List.{reverse}

abbrev pub segment_seconds : ℕ
segment_seconds = 4

abbrev when {ℓ} : {A : Type ℓ} → Bool → List A → List A
when true xs = xs
when false xs = []

-- strings.HasSuffix
abbrev has_suffix : Bytes → Bytes → Bool
has_suffix s suffix = is_some (cut_prefix (reverse s) (reverse suffix))

unfoldable pub hw_init_args : Bytes → Bytes → List Bytes
hw_init_args kind device =
    if kind == str "qsv"
    then str "-init_hw_device" ∷ str "qsv=hw" ∷ []
    else if kind == str "vaapi"
    then str "-init_hw_device"
      ∷ (str "vaapi=va:" ++ device)
      ∷ str "-filter_hw_device"
      ∷ str "va"
      ∷ []
    else []

unfoldable pub preset_args : Bytes → List Bytes
preset_args encoder =
    if has_suffix encoder (str "_nvenc")
    then str "-preset" ∷ str "p5" ∷ []
    else if has_suffix encoder (str "_vaapi")
        || has_suffix encoder (str "_v4l2m2m")
        || has_suffix encoder (str "_rkmpp")
    then []
    else str "-preset" ∷ str "veryfast" ∷ []

joined : Bytes → List Bytes → Bytes
joined out [] = out
joined out (f ∷ fs) = joined (out ++ b',' ∷ f) fs

unfoldable pub join_filters : List Bytes → Option Bytes
unfolding joined
join_filters [] = none
join_filters (f ∷ fs) = some (joined f fs)

abbrev tonemapping : Bytes
tonemapping =
    str "zscale=t=linear:npl=100,tonemap=hable,zscale=p=bt709:t=bt709:m=bt709,format=yuv420p"

-- A scale where there is a height.
unfoldable pub scale_filter : ℤ → List Bytes
scale_filter height = when (lt_int (pos 0) height) ((str "scale=-2:" ++ show_int height) ∷ [])

unfoldable pub bitrate_args : Bytes → ℤ → List Bytes
bitrate_args flag bps = when (lt_int (pos 0) bps) (flag ∷ show_int bps ∷ [])

-- The track that is heard.
unfoldable pub audio_map : {F : Type 0} → TranscodeTarget F → List Bytes
audio_map t = str "-map" ∷ (str "0:a:" ++ show_int t.audio_stream_ordinal) ∷ []

unfoldable pub audio_codec_args : {F : Type 0} → TranscodeTarget F → List Bytes
audio_codec_args t =
    if t.audio_codec == []
    then str "-c:a" ∷ str "copy" ∷ []
    else str "-af"
      ∷ str "aresample=async=1"
      ∷ str "-c:a"
      ∷ t.audio_codec
      ∷ str "-ac"
      ∷ str "2"
      ∷ bitrate_args (str "-b:a") t.audio_bitrate_bps

unfoldable pub hls_output_args : {F : Type 0} → TranscodeTarget F → Bytes → List Bytes
hls_output_args t dir =
    str "-f"
    ∷ str "hls"
    ∷ str "-hls_time"
    ∷ show segment_seconds
    ∷ str "-hls_playlist_type"
    ∷ str "event"
    ∷ ((if t.segment_format == str "fmp4"
          then str "-hls_segment_type"
            ∷ str "fmp4"
            ∷ str "-hls_fmp4_init_filename"
            ∷ str "init.mp4"
            ∷ str "-hls_segment_filename"
            ∷ join_path dir (str "seg%05d.m4s")
            ∷ []
          else str "-hls_segment_filename" ∷ join_path dir (str "seg%05d.ts") ∷ [])
        ++ join_path dir (str "index.m3u8") ∷ [])

unfoldable pub audio_only_args : {F : Type 0} → Job F → List Bytes
audio_only_args j =
    str "-vn"
    ∷ (audio_map j.target ++ (audio_codec_args j.target ++ hls_output_args j.target j.output_dir))

-- What the frames go through for a hardware encoder.
unfoldable pub hw_filters : {F : Type 0} → Job F → List Bytes
hw_filters j = if is_empty (hw_encoder j) then [] else elim j.hw [
  | none ↦ []
  | some hw ↦
      if hw.kind == str "vaapi"
      then str "format=nv12,hwupload" ∷ []
      else when (hw.kind == str "qsv" || hw.kind == str "rkmpp") (str "format=nv12" ∷ [])
]

-- The stream that is encoded, through a graph where a subtitle is burnt in.
unfoldable pub picture_args : Option ℤ → List Bytes → Option (List Bytes)
picture_args (some n) fs =
    (if is_empty fs then some [] else (join_filters fs >>= λ f. some (b',' ∷ f))) >>= λ rest. some (
      str "-filter_complex"
      ∷ (str "[0:v][0:s:" ++ (show_int n ++ (str "]overlay" ++ (rest ++ str "[vout]"))))
      ∷ str "-map"
      ∷ str "[vout]"
      ∷ [])
picture_args none fs =
    (if is_empty fs then some [] else (join_filters fs >>= λ f. some (str "-vf" ∷ f ∷ [])))
    >>= λ vf. some (vf ++ str "-map" ∷ str "0:v:0" ∷ [])

module _ (fl : Floats) where
  open fl use {Float}

  abbrev above_zero : Float → Bool
  above_zero x = fl.lt (fl.lit 0 1) x

  -- How far the input, and the output, is opened ahead.
  unfoldable pub seek_split : Job Float → Float × Float
  seek_split j =
      let seek = j.seek_seconds in
      let p = fl.least (fl.lit 10 1) seek in
      if fl.le seek (fl.lit 0 1)
      then (fl.lit 0 1, fl.lit 0 1)
      else if not (j.target.audio_codec == []) && not (j.target.video_codec == [])
      then (fl.sub seek p, p)
      else (seek, fl.lit 0 1)

  unfoldable pub shared_filters : TranscodeTarget Float → List Bytes
  shared_filters t =
      when t.detelecine ((str "fps=" ++ fl.format_6 t.fps) ∷ [])
      ++ when t.tonemap (tonemapping ∷ [])

  -- Key frames at the segments' seams.
  unfoldable pub gop_args : TranscodeTarget Float → List Bytes
  gop_args t =
      let gop =
        if above_zero t.fps
        then fl.to_int (fl.add (fl.mul (fl.lit segment_seconds 1) t.fps) (fl.lit 1 2))
        else pos (segment_seconds * 30) in
      str "-g" ∷ show_int gop ∷ str "-sc_threshold" ∷ str "0" ∷ []

  unfoldable pub video_args : Job Float → Option (List Bytes)
  video_args j =
      let t = j.target in
      let enc = resolve_encoder j.hw t.video_codec in
      let fs = shared_filters t ++ (scale_filter t.height ++ hw_filters j) in
      if t.video_codec == []
      then some (str "-map" ∷ str "0:v:0" ∷ str "-c:v" ∷ str "copy" ∷ [])
      else (picture_args t.burn_subtitle_ordinal fs >>= λ picture. some (
          picture
          ++ (str "-c:v"
              ∷ enc
              ∷ (preset_args enc
                  ++ (bitrate_args (str "-b:v") t.video_bitrate_bps ++ gop_args t)))))

  unfoldable pub single_args : Job Float → Option (List Bytes)
  single_args j = video_args j >>= λ video. some (
      video
      ++ (audio_map j.target
          ++ (audio_codec_args j.target ++ hls_output_args j.target j.output_dir)))

  unfoldable pub input_args : Job Float → List Bytes
  input_args j =
      let (ahead, behind) = seek_split j in
      (str "-nostdin"
        ∷ str "-hide_banner"
        ∷ str "-loglevel"
        ∷ str "warning"
        ∷ (if is_empty (hw_encoder j)
            then []
            else elim j.hw [ none ↦ [] | some hw ↦ hw_init_args hw.kind hw.device ]))
      ++ (when (above_zero ahead) (str "-ss" ∷ fl.format_3 ahead ∷ [])
          ++ (str "-i"
              ∷ j.input_url
              ∷ when (above_zero behind) (str "-ss" ∷ fl.format_3 behind ∷ [])))
