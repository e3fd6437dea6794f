-- ===== src/Pipeline/Args/Ladder.antt =====
-- internal/pipeline/pipeline.go: the arguments of a job with several renditions, and BuildArgs, which
-- tells the kinds of jobs apart.
use flickr.Base.{
  ℕ, suc, ℤ, pos, lt_int, Option, none, some, List, [], ◌∷◌, ◌++◌, Bytes, str, bytes_eq, ◌==◌,
  if◌then◌else◌, is_empty, length, show, show_int, join, ◌>>=◌,
}
use flickr.Base.Float.{Floats}
use flickr.Model.{Rendition, TranscodeTarget}
use flickr.Pipeline.Job.{Job, join_path, abr, resolve_encoder}
use flickr.Pipeline.Args.{
  segment_seconds, preset_args, join_filters, scale_filter, audio_map, audio_codec_args,
  audio_only_args, hw_filters, shared_filters, gop_args, single_args, input_args,
}

-- [s0][s1]...
split_pads : ℕ → List Rendition → Bytes
split_pads i [] = []
split_pads i (r ∷ rs) = str "[s" ++ (show i ++ (b']' ∷ split_pads (suc i) rs))

unfoldable pub variant_chain : {F : Type 0} → Job F → Rendition → List Bytes
variant_chain j r =
    let chain = scale_filter r.height ++ hw_filters j in
    if is_empty chain then str "null" ∷ [] else chain

unfoldable pub variant_chains : {F : Type 0} → Job F → ℕ → List Rendition → Option Bytes
variant_chains j i [] = some []
variant_chains j i (r ∷ rs) = join_filters (variant_chain j r) >>= λ chain.
    variant_chains j (suc i) rs >>= λ rest.
    some (str ";[s" ++ (show i ++ (b']' ∷ (chain ++ (str "[v" ++ (show i ++ (b']' ∷ rest)))))))

variant_maps : Bytes → ℕ → List Rendition → List Bytes
variant_maps enc i [] = []
variant_maps enc i (r ∷ rs) =
    str "-map"
    ∷ (str "[v" ++ (show i ++ b']' ∷ []))
    ∷ (str "-c:v:" ++ show i)
    ∷ enc
    ∷ ((if lt_int (pos 0) r.video_bitrate_bps
          then (str "-b:v:" ++ show i) ∷ show_int r.video_bitrate_bps ∷ []
          else [])
        ++ variant_maps enc (suc i) rs)

variant_audio : {F : Type 0} → TranscodeTarget F → List Rendition → List Bytes
variant_audio t [] = []
variant_audio t (r ∷ rs) = audio_map t ++ variant_audio t rs

-- v:0,a:0 and so on.
stream_pairs : ℕ → List Rendition → List Bytes
stream_pairs i [] = []
stream_pairs i (r ∷ rs) = (str "v:" ++ (show i ++ (str ",a:" ++ show i))) ∷ stream_pairs (suc i) rs

-- One preset for every video stream.
unfoldable pub preset_for_all : List Bytes → Option (List Bytes)
preset_for_all [] = some []
preset_for_all (flag ∷ []) = none
preset_for_all (flag ∷ preset ∷ rest) = some ((flag ++ str ":v") ∷ preset ∷ [])

unfoldable pub burn_graph : Option ℤ → Bytes
burn_graph none = []
burn_graph (some n) = str "[0:s:" ++ (show_int n ++ str "]overlay,")

unfoldable pub master_args : {F : Type 0} → TranscodeTarget F → List Bytes
unfolding stream_pairs
master_args t =
    str "-f"
    ∷ str "hls"
    ∷ str "-hls_time"
    ∷ show segment_seconds
    ∷ str "-hls_playlist_type"
    ∷ str "event"
    ∷ str "-master_pl_name"
    ∷ str "master.m3u8"
    ∷ str "-var_stream_map"
    ∷ join (str " ") (stream_pairs 0 t.renditions)
    ∷ []

unfoldable pub variant_output_args : {F : Type 0} → TranscodeTarget F → Bytes → List Bytes
variant_output_args t dir =
    (if t.segment_format == str "fmp4"
      then str "-hls_segment_type"
        ∷ str "fmp4"
        ∷ str "-hls_fmp4_init_filename"
        ∷ str "init_%v.mp4"
        ∷ str "-hls_segment_filename"
        ∷ join_path dir (str "v%v_seg%05d.m4s")
        ∷ []
      else str "-hls_segment_filename" ∷ join_path dir (str "v%v_seg%05d.ts") ∷ [])
    ++ join_path dir (str "index_%v.m3u8") ∷ []

module _ (fl : Floats) where
  open fl use {Float}

  -- The graph: what the renditions share, the split, and a chain for each.
  unfoldable pub abr_graph : Job Float → Option Bytes
  unfolding split_pads
  abr_graph j =
      let t = j.target in
      let pre = shared_filters fl t in
      (if is_empty pre then some [] else (join_filters pre >>= λ f. some (f ++ b',' ∷ [])))
      >>= λ shared. variant_chains j 0 t.renditions >>= λ chains. some (
          str "[0:v]"
          ++ (burn_graph t.burn_subtitle_ordinal
              ++ (shared
                  ++ (str "split="
                      ++ (show (length t.renditions) ++ (split_pads 0 t.renditions ++ chains))))))

  unfoldable pub encoding_args : Job Float → Option (List Bytes)
  unfolding variant_maps variant_audio
  encoding_args j =
      let t = j.target in
      let enc = resolve_encoder j.hw t.video_codec in
      abr_graph j >>= λ graph. preset_for_all (preset_args enc) >>= λ preset. some (
        str "-filter_complex"
        ∷ graph
        ∷ (variant_maps enc 0 t.renditions
            ++ (preset ++ (gop_args fl t ++ (variant_audio t t.renditions ++ audio_codec_args t)))))

  unfoldable pub abr_args : Job Float → Option (List Bytes)
  abr_args j = encoding_args j >>= λ encoding.
      some (encoding ++ (master_args j.target ++ variant_output_args j.target j.output_dir))

  unfoldable pub build_args : Job Float → Option (List Bytes)
  build_args j =
      (if j.target.audio_only
        then some (audio_only_args j)
        else if abr j
        then abr_args j
        else single_args fl j)
      >>= λ rest. some (input_args fl j ++ rest)
