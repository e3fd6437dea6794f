-- ===== src/Auth/Session.antt =====
-- internal/auth/auth.go: the PKCE challenge, the signed tokens and the household session. `mac` is
-- HMAC-SHA256 of a secret and a payload, `sha256` the digest, and the randomness of a verifier is an
-- argument.
pub mod Signed
use flickr.Base.{
  ℕ, ℤ, int_eq, lt_int, Bool, not, ◌&&◌, ◌||◌, Option, none, some, [], ◌∷◌, ◌++◌, Bytes, nat_eq,
  bytes_eq, ◌==◌, if◌then◌else◌, ltb, is_empty, cut_byte,
}
use flickr.Base.Base64.{encode, decode}
use flickr.Auth.Checked.{
  Checked, ok, failed, no_dot, bad_payload, bad_mac, bad_signature, bad_session, no_subject,
  session_expired, chain, demand, wanted, Json,
}

-- time.Time: seconds since 1970 and nanoseconds.
pub record Moment : Type 0 where
  pub sec : ℤ
  pub nsec : ℕ

unfoldable pub before : Moment → Moment → Bool
before a b = lt_int a.sec b.sec || (a.sec == b.sec && ltb a.nsec b.nsec)

-- time.Unix(s, 0)
abbrev pub unix : ℤ → Moment
unix s = record { sec = s; nsec = 0 }

-- randomToken, of the bytes that crypto/rand gives.
unfoldable pub random_token : Bytes → Bytes
random_token random = encode random

unfoldable pub challenge : (Bytes → Bytes) → Bytes → Bytes
challenge sha256 verifier = encode (sha256 verifier)

pub record SessionClaims : Type 0 where
  pub subject : Bytes
  pub name : Bytes
  pub issued_at : Moment
  pub expires_at : Moment

-- The wire form.
pub record SessionJson : Type 0 where
  pub sub : Bytes
  pub name : Bytes
  pub iat : ℤ
  pub exp : ℤ

module _ (mac : Bytes → Bytes → Bytes) where
  unfoldable pub sign : Bytes → Bytes → Bytes
  sign secret payload = encode payload ++ b'.' ∷ encode (mac secret payload)

  verify_parts : Bytes → Bytes → Bytes → Checked Bytes
  verify_parts secret front back = chain (wanted bad_payload (decode front)) (λ payload.
      chain (wanted bad_mac (decode back))
        (λ sum. demand (sum == mac secret payload) bad_signature (ok payload)))

  unfoldable pub verify : Bytes → Bytes → Checked Bytes
  unfolding verify_parts
  verify secret token = elim (cut_byte b'.' token) [
    | none ↦ failed no_dot
    | some (front, back) ↦ verify_parts secret front back
  ]

  module _ (json : Json SessionJson) where
    abbrev pub wire : SessionClaims → SessionJson
    wire c = record {
      sub = c.subject;
      name = c.name;
      iat = c.issued_at.sec;
      exp = c.expires_at.sec;
    }

    abbrev pub claims_of : SessionJson → SessionClaims
    claims_of s = record {
      subject = s.sub;
      name = s.name;
      issued_at = unix s.iat;
      expires_at = unix s.exp;
    }

    unfoldable pub encode_session : Bytes → SessionClaims → Bytes
    encode_session secret c = sign secret (json.marshal (wire c))

    unfoldable pub decode_session : Bytes → Bytes → Moment → Checked SessionClaims
    decode_session secret token now = chain (verify secret token) (λ payload.
        chain (wanted bad_session (json.unmarshal payload)) (λ s.
          demand (not (is_empty s.sub)) no_subject
            (demand (before now (unix s.exp)) session_expired (ok (claims_of s)))))
