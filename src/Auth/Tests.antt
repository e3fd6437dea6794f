-- ===== src/Auth/Tests.antt =====
-- A household cookie and an issuer's token, under toy digests.
use flickr.Base.{
  split_byte, pos, true, false, some, [], ◌∷◌, List, Bool, if◌then◌else◌, lt_int, le_int, ◌+ℤ◌,
  negate, int_beq, bytes_beq, contains, ◌≡◌, refl, Bytes, str, is_empty, All, arith,
}
use flickr.Base.Base64.{decode, IsByte}
use flickr.Auth.Checked.{ok, failed, session_expired, chain, demand, Json}
use flickr.Auth.Session.{before, unix, SessionClaims, SessionJson, encode_session, decode_session}
use flickr.Auth.Session.Signed.{IsSigned, decode_session-encode_session, decode_session-IsSigned}
use flickr.Auth.Jwt.{
  Jwk, IdClaims, Expect, Header, PublicKey, public_key, check_claims, audience_ok, allowed,
  verify_jwt,
}
use flickr.Auth.Jwt.Accepts.{IsAccepted, verify_jwt-IsAccepted}

-- A digest that forgets its payload.
abbrev toy_mac : Bytes → Bytes → Bytes
toy_mac secret payload = secret

abbrev session : SessionClaims
session = record {
  subject = str "ada";
  name = str "Ada";
  issued_at = unix (pos 10);
  expires_at = unix (pos 20);
}

abbrev session_json : Json SessionJson
session_json = record {
  marshal = λ s. str "s";
  unmarshal = λ b. some (record { sub = str "ada"; name = str "Ada"; iat = pos 10; exp = pos 20 });
}

abbrev cookie : Bytes
cookie = encode_session toy_mac session_json (str "k") session

text-IsByte : All IsByte (str "s")
unfolding str
text-IsByte = (omega arith, tt)

key-IsByte : All IsByte (str "k")
unfolding str
key-IsByte = (omega arith, tt)

named : is_empty session.subject ≡ false
unfolding str
named = refl

decode_session-encode_session_example :
    decode_session toy_mac session_json (str "k") cookie (unix (pos 15))
    ≡ (if before (unix (pos 15)) (unix (pos 20)) then ok session else failed session_expired)
decode_session-encode_session_example =
    decode_session-encode_session toy_mac session_json (str "k") session (unix (pos 15)) refl
      text-IsByte key-IsByte named

reads_cookie : decode_session toy_mac session_json (str "k") cookie (unix (pos 15)) ≡ ok session
unfolding before lt_int le_int
reads_cookie = decode_session-encode_session_example

decode_session-IsSigned_example :
    (payload : Bytes) × (s : SessionJson) × IsSigned toy_mac (str "k") cookie payload
    × (session_json.unmarshal payload ≡ some s)
    × (session ≡ record {
      subject = s.sub;
      name = s.name;
      issued_at = unix s.iat;
      expires_at = unix s.exp;
    })
    × (is_empty session.subject ≡ false)
    × (before (unix (pos 15)) session.expires_at ≡ true)
decode_session-IsSigned_example =
    decode_session-IsSigned toy_mac session_json (str "k") cookie (unix (pos 15)) session
      reads_cookie

abbrev keys : List Jwk
keys =
    record {
      kty = str "RSA";
      kid = str "1";
      n = str "YQ";
      e = str "YQ";
      use_for = str "sig";
      alg = [];
    }
    ∷ []

abbrev claims : IdClaims
claims = record {
  issuer = str "i";
  subject = str "ada";
  name = [];
  preferred_username = [];
  email = [];
  audience = [];
  authorized_party = str "flickr";
  expires_at = pos 100;
  issued_at = pos 10;
  nonce = [];
}

abbrev expect : Expect
expect = record { issuer = str "i"; audiences = str "flickr" ∷ []; nonce = [] }

abbrev header_json : Json Header
header_json = record {
  marshal = λ h. [];
  unmarshal = λ b. some (record { alg = str "RS256"; kid = str "1"; typ = [] });
}

abbrev claims_json : Json IdClaims
claims_json = record { marshal = λ c. []; unmarshal = λ b. some claims }

-- A check that compares the digest with the signature, and a digest that is the letter a.
abbrev toy_verify : PublicKey → Bytes → Bytes → Bool
toy_verify key digest sig = bytes_beq digest sig

abbrev toy_digest : Bytes → Bytes
toy_digest s = str "a"

accepted :
    verify_jwt toy_digest toy_verify header_json claims_json keys
      (str "YQ.YQ.YQ")
      expect
      (unix (pos 159))
    ≡ ok claims
unfolding verify_jwt split_byte public_key check_claims audience_ok allowed before decode chain
    demand str bytes_beq int_beq lt_int le_int contains ◌+ℤ◌ negate
accepted = refl

verify_jwt-IsAccepted_example :
    IsAccepted toy_digest toy_verify header_json claims_json keys
      (str "YQ.YQ.YQ")
      expect
      (unix (pos 159))
      claims
verify_jwt-IsAccepted_example =
    verify_jwt-IsAccepted toy_digest toy_verify header_json claims_json keys (str "YQ.YQ.YQ") expect
      (unix (pos 159)) claims accepted
