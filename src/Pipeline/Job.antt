-- ===== src/Pipeline/Job.antt =====
-- internal/pipeline/pipeline.go and hwdetect.go: the job of a transcode, and the encoder it uses.
use flickr.Base.{
  Bool, not, ◌&&◌, Option, none, some, List, [], ◌∷◌, ◌++◌, Bytes, str, bytes_eq, ◌==◌,
  if◌then◌else◌, length, ltb, is_empty,
}
use flickr.Base.Assoc.{get}
use flickr.Base.FilePath.{clean}
use flickr.Model.{TranscodeTarget}

pub record HwAccel : Type 0 where
  pub kind : Bytes
  pub device : Bytes
  pub encoders : List (Bytes × Bytes)

pub record Job (F : Type 0) : Type 0 where
  pub input_url : Bytes
  pub target : TranscodeTarget F
  pub output_dir : Bytes
  pub seek_seconds : F
  pub hw : Option HwAccel

-- filepath.Join of two, the second not empty.
unfoldable pub join_path : Bytes → Bytes → Bytes
join_path root name = if is_empty root then clean name else clean (root ++ b'/' ∷ name)

unfoldable pub encoder_for : Bytes → Bytes
encoder_for codec =
    if codec == str "h264"
    then str "libx264"
    else if codec == str "hevc"
    then str "libx265"
    else codec

unfoldable pub resolve_encoder : Option HwAccel → Bytes → Bytes
resolve_encoder none codec = encoder_for codec
resolve_encoder (some hw) codec = elim (get codec hw.encoders) [
  | none ↦ encoder_for codec
  | some enc ↦ enc
]

module _ {F : Type 0} (j : Job F) where
  -- None is empty.
  unfoldable pub hw_encoder : Bytes
  hw_encoder = elim j.hw [
    | none ↦ []
    | some hw ↦
        if j.target.video_codec == []
        then []
        else elim (get j.target.video_codec hw.encoders) [ none ↦ [] | some enc ↦ enc ]
  ]

  unfoldable pub abr : Bool
  abr = not (j.target.video_codec == []) && ltb 1 (length j.target.renditions)

  unfoldable pub playlist_name : Bytes
  playlist_name = if abr then str "master.m3u8" else str "index.m3u8"
