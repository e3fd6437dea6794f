-- ===== src/Decision/Ladder.antt =====
-- `buildLadder` and `describeLadder` of internal/decision/decision.go: the rungs of the adaptive
-- bitrate ladder.
use flickr.Base.{
  Bool, not, ◌&&◌, List, [], ◌∷◌, ◌++◌, map, Bytes, str, join, show_int, ℤ, pos, ◌==◌, int_eq,
  le_int, lt_int, quot, if◌then◌else◌,
}
use flickr.Model.{MediaInfo, ClientCapabilities, TranscodeTarget, Rendition}

abbrev pub ladder_rungs : List Rendition
ladder_rungs =
    record { height = pos 720; video_bitrate_bps = pos 3_000_000 }
    ∷ record { height = pos 480; video_bitrate_bps = pos 1_200_000 }
    ∷ []

-- What the two `continue`s of the loop let through.
unfoldable pub offered : ℤ → ℤ → Rendition → Bool
offered primary_height max_height r =
    not (le_int primary_height r.height)
    && not (lt_int (pos 0) max_height && lt_int max_height r.height)

unfoldable pub lower_rungs : ℤ → ℤ → List Rendition → List Rendition
lower_rungs primary_height max_height [] = []
lower_rungs primary_height max_height (r ∷ rs) =
    let rest = lower_rungs primary_height max_height rs in
    if offered primary_height max_height r then r ∷ rest else rest

-- Height 0 keeps the height of the source.
unfoldable pub kept_height : ℤ → ℤ → ℤ
kept_height source h = if h == pos 0 then source else h

module _ {F : Type 0} where
  unfoldable pub build_ladder :
      MediaInfo F → ClientCapabilities → TranscodeTarget F → List Rendition
  build_ladder media caps t =
      record { height = t.height; video_bitrate_bps = t.video_bitrate_bps }
      ∷ lower_rungs (kept_height media.height t.height) caps.max_height ladder_rungs

  describe_rung : MediaInfo F → Rendition → Bytes
  describe_rung media r =
      show_int (kept_height media.height r.height)
      ++ str "p@"
      ++ show_int (quot r.video_bitrate_bps 1000)
      ++ str "kbps"

  unfoldable pub describe_ladder : MediaInfo F → List Rendition → Bytes
  unfolding describe_rung
  describe_ladder media rungs = join (str ", ") (map (describe_rung media) rungs)
