-- ===== src/Auth/Checked.antt =====
-- The outcome of a check of internal/auth: a value or the first error, and encoding/json as an
-- interface.
use flickr.Base.{Bool, true, false, Option, none, some, ◌≡◌, refl, ap, Bytes, if◌then◌else◌}

-- The errors, by what they say; the texts they quote are left out.
pub data AuthError : Type 0 where
  no_dot bad_payload bad_mac bad_signature bad_session no_subject session_expired : AuthError
  not_a_jwt bad_header unsupported_algorithm : AuthError
  no_key key_not_rsa key_not_signing key_not_rs256 bad_modulus bad_exponent unusable_exponent :
      AuthError
  bad_signature_text bad_token_signature bad_claims_text bad_claims : AuthError
  wrong_issuer wrong_audience no_expiry token_expired wrong_nonce : AuthError
  bad_jwks no_keys : AuthError
  bad_document no_issuer other_issuer missing_endpoint : AuthError

pub data Checked {ℓ} (A : Type ℓ) : Type ℓ where
  ok : A → Checked A
  failed : AuthError → Checked A

module _ {ℓ κ} {A : Type ℓ} {B : Type κ} where
  -- if err != nil { return err }
  unfoldable pub chain : Checked A → (A → Checked B) → Checked B
  chain (ok a) f = f a
  chain (failed e) f = failed e

  pub chain-ok :
      (m : Checked A) (f : A → Checked B) (b : B)
      → chain m f ≡ ok b
      → (a : A) × (m ≡ ok a) × (f a ≡ ok b)
  unfolding chain
  chain-ok (ok a) f b h = (a, refl, h)
  chain-ok (failed e) f b h = cc

module _ {ℓ} {B : Type ℓ} where
  -- A test that must pass, before the rest.
  unfoldable pub demand : Bool → AuthError → Checked B → Checked B
  demand b e rest = if b then rest else failed e

  pub demand-ok :
      (t : Bool) (e : AuthError) (rest : Checked B) (b : B)
      → demand t e rest ≡ ok b
      → (t ≡ true) × (rest ≡ ok b)
  unfolding demand
  demand-ok true e rest b h = (refl, h)
  demand-ok false e rest b h = absurd (cc h)

pub ok_inj {ℓ} : {A : Type ℓ} {a b : A} → ok a ≡ ok b → a ≡ b
ok_inj h = cc

-- An option that must be there.
abbrev pub wanted {ℓ} : {A : Type ℓ} → AuthError → Option A → Checked A
wanted e none = failed e
wanted e (some a) = ok a

pub wanted-ok {ℓ} :
    {A : Type ℓ} (e : AuthError) (o : Option A) (a : A) → wanted e o ≡ ok a → o ≡ some a
wanted-ok e none a h = cc
wanted-ok e (some b) a h = ap some (ok_inj h)

-- encoding/json for one type.
pub record Json (A : Type 0) : Type 0 where
  pub marshal : A → Bytes
  pub unmarshal : Bytes → Option A
