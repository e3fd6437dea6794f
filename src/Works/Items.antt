-- ===== src/Works/Items.antt =====
-- An item of internal/store/store.go, and what internal/works/works.go reads off its identity.
use flickr.Base.{ℤ, Bool, Option, none, some, Bytes, str, bytes_eq, ◌==◌}
use flickr.Model.{MediaInfo, Identity, Enrichment}

-- The moment of arrival is a number.
pub record Item (F : Type 0) : Type 0 where
  pub id : ℤ
  pub object_key : Bytes
  pub etag : Bytes
  pub size : ℤ
  pub media_info : Option (MediaInfo F)
  pub identity : Option Identity
  pub identity_overridden : Bool
  pub enrichment : Option Enrichment
  pub probe_error : Bytes
  pub probe_version : ℤ
  pub identity_version : ℤ
  pub added_at : ℤ
  pub seq : ℤ
  pub sidecar_sig : Bytes

module _ {F : Type 0} where
  unfoldable pub kind : Item F → Bytes
  kind it = elim it.identity [ none ↦ str "unknown" | some identity ↦ identity.kind ]

  unfoldable pub is_extra : Item F → Bool
  unfolding kind
  is_extra it = kind it == str "extra"
