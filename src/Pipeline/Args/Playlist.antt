-- ===== src/Pipeline/Args/Playlist.antt =====
-- What BuildArgs of internal/pipeline/pipeline.go has ffmpeg write is the playlist that PlaylistName
-- gives to the client.
use flickr.Base.{
  subst, ◌||◌, ℕ, suc, ℤ, true, false, Option, none, some, List, [], ◌∷◌, ◌++◌, ◌≡◌, refl, Bytes,
  str, bytes_eq, bytes_beq_iff, ◌==◌, if◌then◌else◌, if_split, if_cases, is_empty, ◌>>=◌,
}
use flickr.Base.Float.{Floats}
use flickr.Model.{Rendition, TranscodeTarget}
use flickr.Pipeline.Job.{Job, join_path, abr, playlist_name, resolve_encoder}
use flickr.Pipeline.Args.{
  has_suffix, preset_args, join_filters, picture_args, audio_map, audio_codec_args, hls_output_args,
  audio_only_args, video_args, single_args, input_args, shared_filters,
}
use flickr.Pipeline.Args.Ladder.{
  variant_chain, variant_chains, preset_for_all, abr_graph, encoding_args, master_args,
  variant_output_args, abr_args, build_args,
}
use mathlib.Core.List.{append_assoc}

-- No panic, and a result of a kind.
abbrev Yields : {A : Type 0} → (A → Type 0) → Option A → Type 0
Yields {A = A} P o = (a : A) × (o ≡ some a) × P a

abbrev Runs : {A : Type 0} → Option A → Type 0
Runs o = Yields (λ a. Unit) o

then_Yields :
    {A B : Type 0} (P : A → Type 0) (Q : B → Type 0) (o : Option A) (f : A → Option B)
    → Yields P o
    → ((a : A) → P a → Yields Q (f a))
    → Yields Q (o >>= f)
then_Yields P Q o f (a, is, p) each = rw (is, ◌>>=◌) (each a p)

-- ffmpeg writes this playlist into the directory: as its output, or as the master of its output.
pub data Writes (dir name : Bytes) : List Bytes → Type 0 where
  output : (front : List Bytes) → Writes dir name (front ++ join_path dir name ∷ [])
  master :
      (front back : List Bytes) (index : Bytes)
      → Writes dir name (front ++ str "-master_pl_name" ∷ name ∷ (back ++ join_path dir index ∷ []))

Writes-append :
    (dir name : Bytes) (more args : List Bytes)
    → Writes dir name args
    → Writes dir name (more ++ args)
Writes-append dir name more args (output front) =
    subst (Writes dir name) (append_assoc more front _) (output (more ++ front))
Writes-append dir name more args (master front back index) =
    subst (Writes dir name) (append_assoc more front _) (master (more ++ front) back index)

join_filters-Runs : (fs : List Bytes) → is_empty fs ≡ false → Runs (join_filters fs)
unfolding join_filters
join_filters-Runs [] h = cc
join_filters-Runs (f ∷ fs) h = (_, refl, tt)

-- Filters that are joined only where there are any.
joined_if_any :
    {A : Type 0} (fs : List Bytes) (a : A) (f : Bytes → A)
    → Runs (if is_empty fs then some a else (join_filters fs >>= λ g. some (f g)))
joined_if_any fs a f =
    if_split Runs (is_empty fs) _ _ (λ none_given. (_, refl, tt))
      (λ given.
        then_Yields (λ g. Unit) (λ b. Unit) _ _ (join_filters-Runs fs given) (λ g _. (_, refl, tt)))

picture_args-Runs : (burn : Option ℤ) (fs : List Bytes) → Runs (picture_args burn fs)
unfolding picture_args
picture_args-Runs none fs =
    then_Yields (λ vf. Unit) (λ r. Unit) _ _ (joined_if_any fs [] (λ f. str "-vf" ∷ f ∷ []))
      (λ vf _. (_, refl, tt))
picture_args-Runs (some n) fs =
    then_Yields (λ f. Unit) (λ r. Unit) _ _ (joined_if_any fs [] (λ f. b',' ∷ f))
      (λ rest _. (_, refl, tt))

preset_for_all-Runs : (enc : Bytes) → Runs (preset_for_all (preset_args enc))
unfolding preset_for_all preset_args
preset_for_all-Runs enc =
    if_cases (λ p. Runs (preset_for_all p)) (has_suffix enc (str "_nvenc")) _ _ (_, refl, tt)
      (if_cases (λ p. Runs (preset_for_all p))
        (has_suffix enc (str "_vaapi")
          || has_suffix enc (str "_v4l2m2m")
          || has_suffix enc (str "_rkmpp"))
        _ _ (_, refl, tt) (_, refl, tt))

chain_given :
    (chain : List Bytes) → is_empty (if is_empty chain then str "null" ∷ [] else chain) ≡ false
chain_given [] = refl
chain_given (f ∷ chain) = refl

variant_chains-Runs :
    {F : Type 0} (j : Job F) (i : ℕ) (rs : List Rendition) → Runs (variant_chains j i rs)
unfolding variant_chains variant_chain
variant_chains-Runs j i [] = (_, refl, tt)
variant_chains-Runs j i (r ∷ rs) =
    then_Yields (λ c. Unit) (λ b. Unit) _ _ (join_filters-Runs (variant_chain j r) (chain_given _))
      (λ c _.
        then_Yields (λ c. Unit) (λ b. Unit) _ _ (variant_chains-Runs j (suc i) rs)
          (λ rest _. (_, refl, tt)))

hls_output_args-Writes :
    {F : Type 0} (t : TranscodeTarget F) (dir : Bytes)
    → Writes dir (str "index.m3u8") (hls_output_args t dir)
unfolding hls_output_args
hls_output_args-Writes t dir =
    Writes-append dir (str "index.m3u8") (_ ∷ _ ∷ _ ∷ _ ∷ _ ∷ _ ∷ []) _ (output _)

master_args-Writes :
    {F : Type 0} (t : TranscodeTarget F) (dir : Bytes)
    → Writes dir (str "master.m3u8") (master_args t ++ variant_output_args t dir)
unfolding master_args variant_output_args
master_args-Writes t dir = master (_ ∷ _ ∷ _ ∷ _ ∷ _ ∷ _ ∷ []) (_ ∷ _ ∷ _) (str "index_%v.m3u8")

-- A job that copies its video has no ladder.
copied_abr : {F : Type 0} (j : Job F) → j.target.video_codec ≡ [] → abr j ≡ false
unfolding abr
copied_abr j h = rw ((bytes_beq_iff j.target.video_codec []).1 h) refl

audio_only_args-Writes :
    {F : Type 0} (j : Job F) → Writes j.output_dir (str "index.m3u8") (audio_only_args j)
unfolding audio_only_args
audio_only_args-Writes j =
    Writes-append j.output_dir (str "index.m3u8") (_ ∷ audio_map j.target) _ (
      Writes-append j.output_dir (str "index.m3u8") (audio_codec_args j.target) _
        (hls_output_args-Writes j.target j.output_dir))

module _ (fl : Floats) where
  open fl use {Float}

  video_args-Runs : (j : Job Float) → Runs (video_args fl j)
  unfolding video_args
  video_args-Runs j =
      if_cases Runs (j.target.video_codec == []) _ _ (_, refl, tt)
        (then_Yields (λ p. Unit) (λ b. Unit) _ _
          (picture_args-Runs j.target.burn_subtitle_ordinal _) (λ p _. (_, refl, tt)))

  single_args-Writes :
      (j : Job Float) → Yields (Writes j.output_dir (str "index.m3u8")) (single_args fl j)
  unfolding single_args
  single_args-Writes j =
      then_Yields (λ v. Unit) (Writes j.output_dir (str "index.m3u8")) _ _ (video_args-Runs j)
        (λ v _. (
          _,
          refl,
          Writes-append j.output_dir (str "index.m3u8") v _ (
              Writes-append j.output_dir (str "index.m3u8") (audio_map j.target) _ (
                Writes-append j.output_dir (str "index.m3u8") (audio_codec_args j.target) _
                  (hls_output_args-Writes j.target j.output_dir))),
        ))

  abr_graph-Runs : (j : Job Float) → Runs (abr_graph fl j)
  unfolding abr_graph
  abr_graph-Runs j =
      then_Yields (λ s. Unit) (λ g. Unit) _ _
        (joined_if_any (shared_filters fl j.target) [] (λ f. f ++ b',' ∷ []))
        (λ s _.
          then_Yields (λ c. Unit) (λ g. Unit) _ _ (variant_chains-Runs j 0 j.target.renditions)
            (λ c _. (_, refl, tt)))

  encoding_args-Runs : (j : Job Float) → Runs (encoding_args fl j)
  unfolding encoding_args
  encoding_args-Runs j =
      then_Yields (λ g. Unit) (λ a. Unit) _ _ (abr_graph-Runs j)
        (λ g _.
          then_Yields (λ p. Unit) (λ a. Unit) _ _
            (preset_for_all-Runs (resolve_encoder j.hw j.target.video_codec))
            (λ p _. (_, refl, tt)))

  abr_args-Writes :
      (j : Job Float) → Yields (Writes j.output_dir (str "master.m3u8")) (abr_args fl j)
  unfolding abr_args
  abr_args-Writes j =
      then_Yields (λ e. Unit) (Writes j.output_dir (str "master.m3u8")) _ _ (encoding_args-Runs j)
        (λ e _. (
          _,
          refl,
          Writes-append j.output_dir (str "master.m3u8") e _
              (master_args-Writes j.target j.output_dir),
        ))

  pub build_args-Writes :
      (j : Job Float)
      → (j.target.audio_only ≡ true → j.target.video_codec ≡ [])
      → (args : List Bytes) × (build_args fl j ≡ some args)
        × Writes j.output_dir (playlist_name j) args
  unfolding build_args playlist_name
  build_args-Writes j no_video =
      then_Yields (Writes j.output_dir (playlist_name j)) (Writes j.output_dir (playlist_name j)) _
        _
        (if_split (Yields (Writes j.output_dir (playlist_name j))) j.target.audio_only _ _
          (λ audio.
            rw (playlist_name, copied_abr j (no_video audio), if◌then◌else◌)
              (_, refl, audio_only_args-Writes j))
          (λ video.
            if_split (Yields (Writes j.output_dir (playlist_name j))) (abr j) _ _
              (λ many. rw (playlist_name, many, if◌then◌else◌) (abr_args-Writes j))
              (λ one. rw (playlist_name, one, if◌then◌else◌) (single_args-Writes j))))
        (λ rest writes.
          (_, refl, Writes-append j.output_dir (playlist_name j) (input_args fl j) rest writes))
