-- ===== src/Auth/Session/Signed.antt =====
-- The signature of internal/auth/auth.go: what it accepts carries the MAC of its payload, and what is
-- signed is accepted.
use flickr.Base.{
  Bool, true, false, not, some, [], ◌∷◌, ◌++◌, ◌≡◌, refl, subst, ◌≢◌, ◌↔◌, sym, ap, ◌∙◌, inl, inr,
  Bytes, nat_eq, bytes_eq, bytes_beq_iff, ◌==◌, if◌then◌else◌, is_empty, cut_byte, All, Bool-cases,
  Option-cases, some_inj,
}
use flickr.Base.Base64.{encode, decode, decode-encode, encode-no_dot, IsByte}
use flickr.Auth.Checked.{
  ok, failed, session_expired, chain, chain-ok, demand, demand-ok, wanted, wanted-ok, ok_inj, Json,
}
use mathlib.Core.Bool.{true≢false}
use flickr.Auth.Session.{
  sign, verify_parts, verify, SessionClaims, SessionJson, Moment, before, wire, encode_session,
  decode_session,
}

abbrev pub NoDot : Bytes → Type 0
NoDot = All (λ c. c ≢ b'.')

unless : {b : Bool} → not b ≡ true → b ≡ false
unless {b = true} h = absurd (cc h)
unless {b = false} h = refl

cut_dot :
    (front back : Bytes) → NoDot front → cut_byte b'.' (front ++ b'.' ∷ back) ≡ some (front, back)
unfolding cut_byte
cut_dot [] back h = refl
cut_dot (c ∷ front) back (hc, h) = elim (Bool-cases (c == b'.')) [
  | inl same ↦ absurd (hc ((nat_eq.equals_iff c b'.').0 same))
  | inr other ↦ rw (other, if◌then◌else◌, cut_dot front back h) refl
]

cut_dot-some :
    (s front back : Bytes)
    → cut_byte b'.' s ≡ some (front, back)
    → (s ≡ front ++ b'.' ∷ back) × NoDot front
unfolding cut_byte
cut_dot-some [] front back h = absurd (cc h)
cut_dot-some (c ∷ s) front back h = elim (Bool-cases (c == b'.')) [
  | inl same ↦
      let is = some_inj (rw (same, if◌then◌else◌) at h) in
      rw (← ap (λ r. r.0) is)
        (rw (← ap (λ r. r.1) is) (ap (λ d. d ∷ s) ((nat_eq.equals_iff c b'.').0 same), tt))
  | inr other ↦ elim (Option-cases (cut_byte b'.' s)) [
    | inl gone ↦ absurd (cc (rw (other, gone, if◌then◌else◌) at h))
    | inr ((front', back'), there) ↦
        let is = some_inj (rw (other, there, if◌then◌else◌) at h) in
        let (split, plain) = cut_dot-some s front' back' there in
        rw (← ap (λ r. r.0) is) (
          rw (← ap (λ r. r.1) is) (
            ap (λ r. c ∷ r) split,
            ((λ e. true≢false (sym ((nat_eq.equals_iff c b'.').1 e) ∙ other)), plain),
          ))
  ]
]

module _ (mac : Bytes → Bytes → Bytes) where
  -- A token of a payload under a secret: the payload and its MAC, each in base64, with a dot between.
  pub record IsSigned (secret token payload : Bytes) : Type 0 where
    pub front : Bytes
    pub back : Bytes
    pub split : token ≡ front ++ b'.' ∷ back
    pub no_dot_before : NoDot front
    pub carries : decode front ≡ some payload
    pub vouches : decode back ≡ some (mac secret payload)

  verify-accepts :
      (secret token payload : Bytes)
      → verify mac secret token ≡ ok payload
      → IsSigned secret token payload
  unfolding verify verify_parts
  verify-accepts secret token payload h = elim (Option-cases (cut_byte b'.' token)) [
    | inl gone ↦ absurd (cc (rw (gone, verify) at h))
    | inr ((front, back), there) ↦
        let (payload', carries, h) = chain-ok _ _ payload (rw (there, verify) at h) in
        let (sum, vouches, h) = chain-ok _ _ payload h in
        let (same, h) = demand-ok _ _ _ payload h in
        let (split, plain) = cut_dot-some token front back there in
        let is = ok_inj h in
        record {
          front = front;
          back = back;
          split = split;
          no_dot_before = plain;
          carries = wanted-ok _ _ payload' carries ∙ ap some is;
          vouches =
              wanted-ok _ _ sum vouches
              ∙ ap some ((bytes_beq_iff sum (mac secret payload')).0 same ∙ ap (mac secret) is);
        }
  ]

  signed-verify :
      (secret token payload : Bytes)
      → IsSigned secret token payload
      → verify mac secret token ≡ ok payload
  unfolding verify verify_parts chain demand
  signed-verify secret token payload s =
      rw (s.split, verify, cut_dot s.front s.back s.no_dot_before)
        (rw (s.carries, s.vouches, (bytes_beq_iff (mac secret payload) (mac secret payload)).1 refl)
          refl)

  -- A token is accepted for a payload exactly where it is the payload's base64 and, behind the first dot, that of the payload's MAC under the secret.
  pub verify-IsSigned :
      (secret token payload : Bytes)
      → (verify mac secret token ≡ ok payload) ↔ IsSigned secret token payload
  verify-IsSigned secret token payload =
      (verify-accepts secret token payload, signed-verify secret token payload)

  sign-IsSigned :
      (secret payload : Bytes)
      → All IsByte payload
      → All IsByte (mac secret payload)
      → IsSigned secret (sign mac secret payload) payload
  unfolding sign
  sign-IsSigned secret payload h m = record {
    front = encode payload;
    back = encode (mac secret payload);
    split = refl;
    no_dot_before = encode-no_dot payload;
    carries = decode-encode payload h;
    vouches = decode-encode (mac secret payload) m;
  }

  module _ (json : Json SessionJson) where
    -- A session's cookie, of a session with a subject, gives back its subject, its name and its two moments, cut to the second, until it expires, and from then on it is refused as expired; json must give back what it wrote, and the payload and its MAC are bytes.
    pub decode_session-encode_session :
        (secret : Bytes) (c : SessionClaims) (now : Moment)
        → json.unmarshal (json.marshal (wire mac json c)) ≡ some (wire mac json c)
        → All IsByte (json.marshal (wire mac json c))
        → All IsByte (mac secret (json.marshal (wire mac json c)))
        → is_empty c.subject ≡ false
        → decode_session mac json secret (encode_session mac json secret c) now ≡ (
            if before now (record { sec = c.expires_at.sec; nsec = 0 })
            then ok (record {
              subject = c.subject;
              name = c.name;
              issued_at = record { sec = c.issued_at.sec; nsec = 0 };
              expires_at = record { sec = c.expires_at.sec; nsec = 0 };
            })
            else failed session_expired)
    unfolding decode_session encode_session chain demand
    decode_session-encode_session secret c now reads payload_bytes mac_bytes named =
        let payload = json.marshal (wire mac json c) in
        let accepted =
          signed-verify secret (sign mac secret payload) payload
            (sign-IsSigned secret payload payload_bytes mac_bytes) in
        rw (accepted, chain, reads, wanted, chain, named, demand) refl

    -- Whatever a cookie is read as, a payload that was signed under the secret says it as json reads it, all four fields of it, its moments in seconds; it names a subject, and has not expired.
    pub decode_session-IsSigned :
        (secret token : Bytes) (now : Moment) (c : SessionClaims)
        → decode_session mac json secret token now ≡ ok c
        → (payload : Bytes) × (s : SessionJson) × IsSigned secret token payload
          × (json.unmarshal payload ≡ some s)
          × (c ≡ record {
            subject = s.sub;
            name = s.name;
            issued_at = record { sec = s.iat; nsec = 0 };
            expires_at = record { sec = s.exp; nsec = 0 };
          })
          × (is_empty c.subject ≡ false)
          × (before now c.expires_at ≡ true)
    unfolding decode_session
    decode_session-IsSigned secret token now c h =
        let (payload, accepted, h) = chain-ok _ _ c h in
        let (s, reads, h) = chain-ok _ _ c h in
        let (named, h) = demand-ok _ _ _ c h in
        let (fresh, h) = demand-ok _ _ _ c h in
        let is = ok_inj h in
        (
          payload,
          s,
          verify-accepts secret token payload accepted,
          wanted-ok _ _ s reads,
          sym is,
          subst (λ c. is_empty c.subject ≡ false) is (unless named),
          subst (λ c. before now c.expires_at ≡ true) is fresh,
        )
