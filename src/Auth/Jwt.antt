-- ===== src/Auth/Jwt.antt =====
-- internal/auth/jwt.go: an issuer's tokens. RSA's PKCS #1 v1.5 check over SHA-256 is `rsa_verify`, of a
-- key, the digest and the signature.
pub mod Accepts
use flickr.Base.{
  ℕ, ◌+◌, ◌-◌, ◌*◌, ◌^◌, ℤ, pos, negsuc, int_eq, int_beq, lt_int, ◌+ℤ◌, negate, signed_64, Bool,
  true, false, not, ◌&&◌, ◌||◌, Option, none, some, List, [], ◌∷◌, ◌++◌, Bytes, str, nat_eq,
  bytes_eq, ◌==◌, if◌then◌else◌, ltb, leb, is_empty, length, contains, split_byte,
}
use flickr.Base.Base64.{decode}
use flickr.Auth.Checked
use flickr.Auth.Checked.{AuthError, Checked, chain, demand, wanted, Json}
use flickr.Auth.Session.{Moment, before, unix}

pub record Jwk : Type 0 where
  pub kty : Bytes
  pub kid : Bytes
  pub n : Bytes
  pub e : Bytes
  pub use_for : Bytes
  pub alg : Bytes

pub record IdClaims : Type 0 where
  pub issuer : Bytes
  pub subject : Bytes
  pub name : Bytes
  pub preferred_username : Bytes
  pub email : Bytes
  pub audience : List Bytes
  pub authorized_party : Bytes
  pub expires_at : ℤ
  pub issued_at : ℤ
  pub nonce : Bytes

pub record Expect : Type 0 where
  pub issuer : Bytes
  pub audiences : List Bytes
  pub nonce : Bytes

pub record Header : Type 0 where
  pub alg : Bytes
  pub kid : Bytes
  pub typ : Bytes

-- rsa.PublicKey
pub record PublicKey : Type 0 where
  pub modulus : ℕ
  pub exponent : ℤ

-- big.Int.SetBytes: the bytes of a number, the first one the greatest.
big_int : ℕ → Bytes → ℕ
big_int n [] = n
big_int n (c ∷ s) = big_int (n * 256 + c) s

-- In seconds.
abbrev pub skew : ℕ
skew = 60

-- The body of the loop of publicKey, for the key that is named.
unfoldable pub signing_key : Jwk → Checked PublicKey
unfolding big_int
signing_key k = demand (k.kty == str "RSA") Checked.key_not_rsa (
    demand (is_empty k.use_for || k.use_for == str "sig") Checked.key_not_signing (
      demand (is_empty k.alg || k.alg == str "RS256") Checked.key_not_rs256 (
        chain (wanted Checked.bad_modulus (decode k.n)) (λ n.
          chain (wanted Checked.bad_exponent (decode k.e)) (λ e.
            demand (not (is_empty e) && leb (length e) 8) Checked.unusable_exponent (
              Checked.ok
                (record { modulus = big_int 0 n; exponent = signed_64 (big_int 0 e) })))))))

unfoldable pub public_key : List Jwk → Bytes → Checked PublicKey
unfolding signing_key
public_key [] kid = Checked.failed Checked.no_key
public_key (k ∷ ks) kid =
    let rest = public_key ks kid in if k.kid == kid then signing_key k else rest

-- audience.UnmarshalJSON: one string, or a list of them.
unfoldable pub unmarshal_audience : Json Bytes → Json (List Bytes) → Bytes → Option (List Bytes)
unmarshal_audience one many b = elim (one.unmarshal b) [
  | some name ↦ some (name ∷ [])
  | none ↦ many.unmarshal b
]

-- A document without keys is an error.
unfoldable pub parse_jwks : Json (List Jwk) → Bytes → Checked (List Jwk)
parse_jwks json body =
    chain (wanted Checked.bad_jwks (json.unmarshal body))
      (λ keys. demand (not (is_empty keys)) Checked.no_keys (Checked.ok keys))

-- Any wanted audience is the authorized party, or is named.
unfoldable pub audience_ok : IdClaims → List Bytes → Bool
audience_ok claims [] = false
audience_ok claims (w ∷ ws) =
    w == claims.authorized_party || (contains claims.audience w || audience_ok claims ws)

-- now.Add(-skew)
unfoldable pub allowed : Moment → Moment
allowed now = record now { sec = now.sec +ℤ negate (pos skew) }

unfoldable pub check_claims : Expect → Moment → IdClaims → Checked IdClaims
check_claims want now c =
    demand (is_empty want.issuer || c.issuer == want.issuer) Checked.wrong_issuer (
      demand (is_empty want.audiences || audience_ok c want.audiences) Checked.wrong_audience (
        demand (not (c.expires_at == pos 0)) Checked.no_expiry (
          demand (not (before (unix c.expires_at) (allowed now))) Checked.token_expired (
            demand (is_empty want.nonce || c.nonce == want.nonce) Checked.wrong_nonce
              (Checked.ok c)))))

-- The three parts of a token.
unfoldable pub three_parts : List Bytes → Option (Bytes × Bytes × Bytes)
three_parts [] = none
three_parts (a ∷ []) = none
three_parts (a ∷ b ∷ []) = none
three_parts (a ∷ b ∷ c ∷ []) = some (a, b, c)
three_parts (a ∷ b ∷ c ∷ d ∷ rest) = none

module _ (sha256 : Bytes → Bytes) (rsa_verify : PublicKey → Bytes → Bytes → Bool)
    (header_json : Json Header) (claims_json : Json IdClaims) where
  -- The key that the signature was made with.
  verify_signature : List Jwk → Header → Bytes → Bytes → Bytes → Checked PublicKey
  verify_signature keys h head body signature =
      demand (h.alg == str "RS256") Checked.unsupported_algorithm (
        chain (public_key keys h.kid) (λ key.
          chain (wanted Checked.bad_signature_text (decode signature)) (λ sig.
            demand (rsa_verify key (sha256 (head ++ b'.' ∷ body)) sig) Checked.bad_token_signature
              (Checked.ok key))))

  verify_parts : List Jwk → Expect → Moment → Bytes → Bytes → Bytes → Checked IdClaims
  verify_parts keys want now head body signature =
      chain (wanted Checked.bad_header (decode head)) (λ raw_header.
        chain (wanted Checked.bad_header (header_json.unmarshal raw_header)) (λ h.
          chain (verify_signature keys h head body signature) (λ key.
            chain (wanted Checked.bad_claims_text (decode body)) (λ raw_claims.
              chain (wanted Checked.bad_claims (claims_json.unmarshal raw_claims))
                (λ c. check_claims want now c)))))

  unfoldable pub verify_jwt : List Jwk → Bytes → Expect → Moment → Checked IdClaims
  unfolding verify_parts verify_signature three_parts
  verify_jwt keys token want now = elim (three_parts (split_byte b'.' token)) [
    | none ↦ Checked.failed Checked.not_a_jwt
    | some (head, body, signature) ↦ verify_parts keys want now head body signature
  ]
