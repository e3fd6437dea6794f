-- ===== src/Pipeline/Args/Decided.antt =====
-- From internal/decision to ffmpeg: the target that DecideWith gives, run by BuildArgs of
-- internal/pipeline/pipeline.go.
use flickr.Base.{some, List, [], ◌≡◌, ◌≢◌, Bytes, bytes_eq}
use flickr.Base.Float.{Floats}
use flickr.Model.{MediaInfo, ClientCapabilities, ServerPolicy}
use flickr.Decision.{Options, decide_with}
use flickr.Decision.Sound.{no_picture}
use flickr.Pipeline.Job.{Job, playlist_name}
use flickr.Pipeline.Args.Ladder.{build_args}
use flickr.Pipeline.Args.Playlist.{Writes, build_args-Writes}

module _ (fl : Floats) where
  open fl use {Float}

  -- A job for the target that DecideWith gives is turned into arguments without a panic, and they have ffmpeg write the playlist that the client is sent to, as its output or as the master playlist of its output; the policy names an audio codec.
  pub build_args-decide_with :
      (media : MediaInfo Float) (caps : ClientCapabilities) (policy : ServerPolicy) (opts : Options)
      (j : Job Float)
      → (decide_with fl media caps policy opts).target ≡ some j.target
      → policy.transcode_audio_codec ≢ []
      → (args : List Bytes) × (build_args fl j ≡ some args)
        × Writes j.output_dir (playlist_name j) args
  build_args-decide_with media caps policy opts j returned named =
      build_args-Writes fl j (no_picture fl media caps policy opts j.target returned named)
