-- ===== src/Auth/Jwt/Accepts.antt =====
-- Whatever internal/auth/jwt.go accepts is signed by a key of the issuer and says what was expected.
use flickr.Base.{
  split_byte, ℕ, pos, int_eq, int_beq_iff, Bool, true, false, not, ◌||◌, some, List, [], ◌∷◌, ◌++◌,
  ◌≡◌, refl, ◌≢◌, sym, subst, ap, ◌∙◌, ◌⊎◌, inl, inr, Bytes, str, nat_eq, bytes_eq, bytes_beq_iff,
  ◌==◌, if◌then◌else◌, if_cases, if_split, join, is_empty, Any, Bool-cases, Option-cases, or_iff,
  some_inj, contains,
}
use flickr.Base.Base64.{decode}
use flickr.Auth.Checked.{ok, key_not_rsa, chain-ok, demand-ok, wanted-ok, ok_inj, Json}
use flickr.Auth.Session.{Moment, before, unix}
use flickr.Auth.Jwt.{
  Jwk, IdClaims, Expect, Header, PublicKey, signing_key, public_key, audience_ok, allowed,
  check_claims, three_parts, verify_signature, verify_parts, verify_jwt,
}
use mathlib.Core.Bool.{true≢false}

-- An expectation that is left empty is none.
abbrev pub Unless : {A : Type 0} → List A → Type 0 → Type 0
Unless xs P = (xs ≡ []) ⊎ P

-- One of the wanted audiences is the authorized party, or stands in the token's audience.
abbrev pub IsFor : IdClaims → List Bytes → Type 0
IsFor c = Any (λ w. (w ≡ c.authorized_party) ⊎ Any (λ got. got ≡ w) c.audience)

-- What the caller expects of the claims.
pub record IsExpected (want : Expect) (now : Moment) (c : IdClaims) : Type 0 where
  pub from_issuer : Unless want.issuer (c.issuer ≡ want.issuer)
  pub for_audience : Unless want.audiences (IsFor c want.audiences)
  pub has_expiry : c.expires_at ≢ pos 0
  pub is_fresh : before (unix c.expires_at) (allowed now) ≡ false
  pub of_login : Unless want.nonce (c.nonce ≡ want.nonce)

-- A key of the set with the name, for RSA.
abbrev pub IsKeyOf : List Jwk → Bytes → PublicKey → Type 0
IsKeyOf keys kid key =
    Any (λ k. (k.kid ≡ kid) × (k.kty ≡ str "RSA") × (signing_key k ≡ ok key)) keys

is_empty-nil : {A : Type 0} (xs : List A) → is_empty xs ≡ true → xs ≡ []
is_empty-nil [] h = refl
is_empty-nil (x ∷ xs) h = absurd (cc h)

unless_bytes : (a b : Bytes) → (is_empty b || a == b) ≡ true → Unless b (a ≡ b)
unless_bytes a b h = elim ((or_iff (is_empty b) (a == b)).0 h) [
  | inl left_out ↦ inl (is_empty-nil b left_out)
  | inr same ↦ inr ((bytes_beq_iff a b).0 same)
]

contains-Any : (xs : List Bytes) (w : Bytes) → contains xs w ≡ true → Any (λ got. got ≡ w) xs
unfolding contains
contains-Any [] w h = absurd (cc h)
contains-Any (x ∷ xs) w h = elim ((or_iff (x == w) (contains xs w)).0 h) [
  | inl same ↦ inl ((bytes_beq_iff x w).0 same)
  | inr later ↦ inr (contains-Any xs w later)
]

audience_ok-IsFor : (c : IdClaims) (ws : List Bytes) → audience_ok c ws ≡ true → IsFor c ws
unfolding audience_ok
audience_ok-IsFor c [] h = absurd (cc h)
audience_ok-IsFor c (w ∷ ws) h =
    elim ((or_iff (w == c.authorized_party) (contains c.audience w || audience_ok c ws)).0 h) [
      | inl party ↦ inl (inl ((bytes_beq_iff w c.authorized_party).0 party))
      | inr rest ↦ elim ((or_iff (contains c.audience w) (audience_ok c ws)).0 rest) [
        | inl named ↦ inl (inr (contains-Any c.audience w named))
        | inr later ↦ inr (audience_ok-IsFor c ws later)
      ]
    ]

test_fails : (b : Bool) → not b ≡ true → b ≡ false
test_fails true h = absurd (cc h)
test_fails false h = refl

check_claims-IsExpected :
    (want : Expect) (now : Moment) (c claims : IdClaims)
    → check_claims want now c ≡ ok claims
    → (c ≡ claims) × IsExpected want now c
unfolding check_claims
check_claims-IsExpected want now c claims h =
    let (issuer, h) = demand-ok _ _ _ claims h in
    let (audience, h) = demand-ok _ _ _ claims h in
    let (expiry, h) = demand-ok _ _ _ claims h in
    let (fresh, h) = demand-ok _ _ _ claims h in
    let (nonce, h) = demand-ok _ _ _ claims h in
    (
      ok_inj h,
      record {
        from_issuer = unless_bytes c.issuer want.issuer issuer;
        for_audience =
            elim ((or_iff (is_empty want.audiences) (audience_ok c want.audiences)).0 audience) [
              | inl left_out ↦ inl (is_empty-nil want.audiences left_out)
              | inr there ↦ inr (audience_ok-IsFor c want.audiences there)
            ];
        has_expiry =
            λ e. true≢false (sym ((int_beq_iff c.expires_at (pos 0)).1 e) ∙ test_fails _ expiry);
        is_fresh = test_fails _ fresh;
        of_login = unless_bytes c.nonce want.nonce nonce;
      },
    )

public_key-IsKeyOf :
    (keys : List Jwk) (kid : Bytes) (key : PublicKey)
    → public_key keys kid ≡ ok key
    → IsKeyOf keys kid key
unfolding public_key signing_key
public_key-IsKeyOf [] kid key h = absurd (cc h)
public_key-IsKeyOf (k ∷ ks) kid key h = elim (Bool-cases (k.kid == kid)) [
  | inl same ↦
      let h = rw (same, if◌then◌else◌) at h in
      inl ((bytes_beq_iff k.kid kid).0 same, is_rsa k key h, h)
  | inr other ↦ inr (public_key-IsKeyOf ks kid key (rw (other, if◌then◌else◌) at h))
]
  where
    is_rsa : (k : Jwk) (key : PublicKey) → signing_key k ≡ ok key → k.kty ≡ str "RSA"
    is_rsa k key h =
        let (rsa, h) = demand-ok (k.kty == str "RSA") key_not_rsa _ key h in
        (bytes_beq_iff k.kty (str "RSA")).0 rsa

split_byte-ne_nil : (b : ℕ) (s : Bytes) → split_byte b s ≢ []
unfolding split_byte
split_byte-ne_nil b [] e = cc
split_byte-ne_nil b (c ∷ s) e =
    if_cases (λ parts. parts ≢ []) (c == b) _ _ (λ e. cc) (extended-ne_nil (split_byte b s)) e
  where
    extended-ne_nil :
        (parts : List Bytes)
        → (elim parts as (λ _. List Bytes) [
          | [] ↦ (c ∷ []) ∷ []
          | first ∷ later ↦ (c ∷ first) ∷ later
        ])
          ≢ []
    extended-ne_nil [] e = cc
    extended-ne_nil (first ∷ later) e = cc

join-extended :
    (b c : ℕ) (parts : List Bytes)
    → parts ≢ []
    → join (b ∷ []) (elim parts as (λ _. List Bytes) [
      | [] ↦ (c ∷ []) ∷ []
      | first ∷ later ↦ (c ∷ first) ∷ later
    ])
      ≡ c ∷ join (b ∷ []) parts
unfolding join
join-extended b c [] h = absurd (h refl)
join-extended b c (first ∷ []) h = refl
join-extended b c (first ∷ second ∷ later) h = refl

join_behind :
    (b : ℕ) (parts : List Bytes) → parts ≢ [] → join (b ∷ []) ([] ∷ parts) ≡ b ∷ join (b ∷ []) parts
unfolding join
join_behind b [] h = absurd (h refl)
join_behind b (first ∷ later) h = refl

-- The parts, joined again, are the text.
join-split_byte : (b : ℕ) (s : Bytes) → join (b ∷ []) (split_byte b s) ≡ s
unfolding split_byte join
join-split_byte b [] = refl
join-split_byte b (c ∷ s) =
    let parts = split_byte b s in
    let rest = join-split_byte b s in
    if_split (λ parts. join (b ∷ []) parts ≡ c ∷ s) (c == b) _ _
      (λ same.
        join_behind b parts (split_byte-ne_nil b s)
        ∙ (λ i. sym ((nat_eq.equals_iff c b).0 same) i ∷ rest i))
      (λ other. join-extended b c parts (split_byte-ne_nil b s) ∙ ap (λ r. c ∷ r) rest)

three_parts-some :
    (parts : List Bytes) (a b c : Bytes)
    → three_parts parts ≡ some (a, b, c)
    → parts ≡ a ∷ b ∷ c ∷ []
unfolding three_parts
three_parts-some [] a b c h = cc
three_parts-some (p ∷ []) a b c h = cc
three_parts-some (p ∷ q ∷ []) a b c h = cc
three_parts-some (p ∷ q ∷ r ∷ []) a b c h =
    let is = some_inj h in λ i. (is i).0 ∷ (is i).1 ∷ (is i).2 ∷ []
three_parts-some (p ∷ q ∷ r ∷ t ∷ rest) a b c h = cc

-- The three parts, with dots between.
three_parts-split :
    (token a b c : Bytes)
    → three_parts (split_byte b'.' token) ≡ some (a, b, c)
    → token ≡ a ++ b'.' ∷ (b ++ b'.' ∷ c)
unfolding join
three_parts-split token a b c h =
    sym (join-split_byte b'.' token)
    ∙ ap (λ parts. join (b'.' ∷ []) parts) (three_parts-some (split_byte b'.' token) a b c h)

module _ (sha256 : Bytes → Bytes) (rsa_verify : PublicKey → Bytes → Bytes → Bool)
    (header_json : Json Header) (claims_json : Json IdClaims) where
  -- A token: header, claims and signature with dots between, signed in RS256 by the key of the issuer that the header names, and its claims as expected.
  pub record IsAccepted (keys : List Jwk) (token : Bytes) (want : Expect) (now : Moment)
      (claims : IdClaims) : Type 0 where
    pub head : Bytes
    pub body : Bytes
    pub signature : Bytes
    pub split : token ≡ head ++ b'.' ∷ (body ++ b'.' ∷ signature)
    pub raw_header : Bytes
    pub raw_claims : Bytes
    pub sig : Bytes
    pub decoded :
        (decode head ≡ some raw_header)
        × (decode body ≡ some raw_claims)
        × (decode signature ≡ some sig)
    pub header : Header
    pub reads_header : header_json.unmarshal raw_header ≡ some header
    pub algorithm : header.alg ≡ str "RS256"
    pub key : PublicKey
    pub is_key : IsKeyOf keys header.kid key
    pub vouches : rsa_verify key (sha256 (head ++ b'.' ∷ body)) sig ≡ true
    pub reads_claims : claims_json.unmarshal raw_claims ≡ some claims
    pub expected : IsExpected want now claims

  -- Whatever token is accepted is signed in RS256, over its header and claims, by the RSA key of the issuer that its header names, comes from the issuer, is for one of the audiences, has an expiry that is not past by more than the skew, and has the nonce of the login, as far as these are asked for.
  pub verify_jwt-IsAccepted :
      (keys : List Jwk) (token : Bytes) (want : Expect) (now : Moment) (claims : IdClaims)
      → verify_jwt sha256 rsa_verify header_json claims_json keys token want now ≡ ok claims
      → IsAccepted keys token want now claims
  unfolding verify_jwt verify_parts verify_signature
  verify_jwt-IsAccepted keys token want now claims h =
      elim (Option-cases (three_parts (split_byte b'.' token))) [
        | inl other ↦ absurd (cc (rw (other, verify_jwt) at h))
        | inr ((head, body, signature), there) ↦
            let (raw_header, header_text, h) = chain-ok _ _ claims (rw (there, verify_jwt) at h) in
            let (header, reads_header, h) = chain-ok _ _ claims h in
            let (key, signed, h) = chain-ok _ _ claims h in
            let (algorithm, signed) = demand-ok _ _ _ key signed in
            let (key', named, signed) = chain-ok _ _ key signed in
            let (sig, signature_text, signed) = chain-ok _ _ key signed in
            let (vouches, signed) = demand-ok _ _ _ key signed in
            let (raw_claims, claims_text, h) = chain-ok _ _ claims h in
            let (c, reads_claims, h) = chain-ok _ _ claims h in
            let (same, expected) = check_claims-IsExpected want now c claims h in
            record {
              head = head;
              body = body;
              signature = signature;
              split = three_parts-split token head body signature there;
              raw_header = raw_header;
              raw_claims = raw_claims;
              sig = sig;
              decoded = (
                wanted-ok _ _ raw_header header_text,
                wanted-ok _ _ raw_claims claims_text,
                wanted-ok _ _ sig signature_text,
              );
              header = header;
              reads_header = wanted-ok _ _ header reads_header;
              algorithm = (bytes_beq_iff header.alg (str "RS256")).0 algorithm;
              key = key';
              is_key = public_key-IsKeyOf keys header.kid key' named;
              vouches = vouches;
              reads_claims = wanted-ok _ _ c reads_claims ∙ ap some same;
              expected = subst (IsExpected want now) same expected;
            }
      ]
