-- ===== src/Model/Defaults.antt =====
-- What Normalize of internal/model/model.go makes of a client's capabilities.
use flickr.Base.{
  ℤ, pos, int_eq, int_beq, int_beq_iff, lt_int, not_lt_int_iff, ≤ℤ_refl, ◌≤ℤ◌, false, ◌||◌, List,
  [], ◌∷◌, ◌≡◌, refl, ◌≢◌, ◌⊎◌, inl, inr, ◌==◌, Bytes, str, if◌then◌else◌, arith, Bool-cases,
}
use flickr.Model.{ClientCapabilities, normalize, or_default, or_else, capability_schema_version}

-- Nothing that Normalize fills is absent, and the schema is one that the server knows.
pub record IsNormal (c : ClientCapabilities) : Type 0 where
  pub version : c.schema_version ≢ pos 0
  pub known : c.schema_version ≤ℤ capability_schema_version
  pub width : c.max_width ≢ pos 0
  pub height : c.max_height ≢ pos 0
  pub channels : c.max_audio_channels ≢ pos 0
  pub formats : c.hls_segment_formats ≢ []
  pub audio : c.hls_audio_codecs ≢ []
  pub video : (c.hls_video_codecs ≢ []) ⊎ (c.hls_video_codecs ≡ c.video_codecs)

not_zero : (x : ℤ) → x ≢ pos 0 → (x == pos 0) ≡ false
not_zero x h = elim (Bool-cases (x == pos 0)) [
  | inl e ↦ absurd (h ((int_beq_iff x (pos 0)).0 e))
  | inr e ↦ e
]

pos_ne : (n : ℤ) → int_beq n (pos 0) ≡ false → n ≢ pos 0
pos_ne n h e = ground (arith, (int_beq_iff n (pos 0)).1 e)

or_default-ne : (x d : ℤ) → d ≢ pos 0 → or_default x d ≢ pos 0
unfolding or_default
or_default-ne x d h = elim (Bool-cases (x == pos 0)) [
  | inl e ↦ rw (e, if◌then◌else◌) h
  | inr e ↦ rw (e, if◌then◌else◌) (pos_ne x e)
]

or_default-keep : (x d : ℤ) → x ≢ pos 0 → or_default x d ≡ x
unfolding or_default
or_default-keep x d h = rw (not_zero x h, if◌then◌else◌) refl

or_else-ne : (xs : List Bytes) (d : Bytes) (ds : List Bytes) → or_else xs (d ∷ ds) ≢ []
unfolding or_else
or_else-ne [] d ds e = cc
or_else-ne (x ∷ xs) d ds e = cc

or_else-cases : (xs ds : List Bytes) → (or_else xs ds ≢ []) ⊎ (or_else xs ds ≡ ds)
unfolding or_else
or_else-cases [] ds = inr refl
or_else-cases (x ∷ xs) ds = inl (λ e. cc)

or_else-keep : (xs ds : List Bytes) → (xs ≢ []) ⊎ (xs ≡ ds) → or_else xs ds ≡ xs
unfolding or_else
or_else-keep [] ds (inl h) = absurd (h refl)
or_else-keep [] ds (inr e) = cc
or_else-keep (x ∷ xs) ds h = refl

version_of : ℤ → ℤ
version_of v =
    if v == pos 0 || lt_int capability_schema_version v then capability_schema_version else v

version_of-ne : (v : ℤ) → (version_of v ≢ pos 0) × (version_of v ≤ℤ capability_schema_version)
unfolding version_of
version_of-ne v = elim (Bool-cases (v == pos 0 || lt_int capability_schema_version v)) [
  | inl e ↦
      rw (e, if◌then◌else◌)
        (
          pos_ne capability_schema_version (unfold int_beq in refl),
          ≤ℤ_refl capability_schema_version,
        )
  | inr e ↦
      rw (e, if◌then◌else◌)
        (pos_ne v (ground arith), (not_lt_int_iff capability_schema_version v).0 (ground arith))
]

version_of-keep : (v : ℤ) → v ≢ pos 0 → v ≤ℤ capability_schema_version → version_of v ≡ v
unfolding version_of
version_of-keep v h le =
    rw (not_zero v h, (not_lt_int_iff capability_schema_version v).1 le, if◌then◌else◌) refl

-- Normalize fills what is absent and bounds the schema's version; what is normal already it leaves as it is.
pub normalize-IsNormal :
    (c : ClientCapabilities) → IsNormal (normalize c) × (IsNormal c → normalize c ≡ c)
unfolding normalize version_of int_beq
normalize-IsNormal c = (
  record {
    version = (version_of-ne c.schema_version).0;
    known = (version_of-ne c.schema_version).1;
    width = or_default-ne c.max_width (pos 3840) (pos_ne (pos 3840) refl);
    height = or_default-ne c.max_height (pos 2160) (pos_ne (pos 2160) refl);
    channels = or_default-ne c.max_audio_channels (pos 8) (pos_ne (pos 8) refl);
    formats = or_else-ne c.hls_segment_formats (str "ts") [];
    audio = or_else-ne c.hls_audio_codecs (str "aac") [];
    video = or_else-cases c.hls_video_codecs c.video_codecs;
  },
  λ h i. record c {
    schema_version = version_of-keep c.schema_version h.version h.known i;
    max_width = or_default-keep c.max_width (pos 3840) h.width i;
    max_height = or_default-keep c.max_height (pos 2160) h.height i;
    max_audio_channels = or_default-keep c.max_audio_channels (pos 8) h.channels i;
    hls_segment_formats = or_else-keep c.hls_segment_formats (str "ts" ∷ []) (inl h.formats) i;
    hls_audio_codecs = or_else-keep c.hls_audio_codecs (str "aac" ∷ []) (inl h.audio) i;
    hls_video_codecs = or_else-keep c.hls_video_codecs c.video_codecs h.video i;
  },
)
