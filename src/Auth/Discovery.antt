-- ===== src/Auth/Discovery.antt =====
-- ParseDiscovery of internal/auth/discovery.go: the provider's document.
use flickr.Base.{not, ◌&&◌, ◌||◌, [], ◌∷◌, Bytes, nat_eq, bytes_eq, ◌==◌, if◌then◌else◌, is_empty}
use flickr.Auth.Checked.{
  Checked, ok, bad_document, no_issuer, other_issuer, missing_endpoint, chain, demand, wanted, Json,
}

pub record Provider : Type 0 where
  pub issuer : Bytes
  pub authorization_endpoint : Bytes
  pub token_endpoint : Bytes
  pub jwks_uri : Bytes
  pub end_session_endpoint : Bytes
  pub userinfo_endpoint : Bytes

-- strings.TrimRight(s, "/")
unfoldable pub trim_slashes : Bytes → Bytes
trim_slashes [] = []
trim_slashes (c ∷ s) =
    let rest = trim_slashes s in if c == b'/' && is_empty rest then [] else c ∷ rest

unfoldable pub parse_discovery : Json Provider → Bytes → Bytes → Checked Provider
unfolding trim_slashes
parse_discovery json body want_issuer = chain (wanted bad_document (json.unmarshal body)) (λ p.
    demand (not (is_empty p.issuer)) no_issuer (
      demand (is_empty (trim_slashes want_issuer) || p.issuer == trim_slashes want_issuer)
        other_issuer
        (demand
          (not (
            is_empty p.authorization_endpoint
            || (is_empty p.token_endpoint || is_empty p.jwks_uri)))
          missing_endpoint (ok p))))
