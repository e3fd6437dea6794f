-- ===== src/Bearer.antt =====
-- internal/bearer/bearer.go: the token that a worker sends, and the one that it holds until a minute
-- before it expires. Moments and durations are nanoseconds; the token endpoint's answer is an argument.
pub mod Held
mod Tests
use flickr.Base.{
  ℕ, ◌*◌, ℤ, pos, int_eq, lt_int, le_int, quot, int_64, ◌+ℤ◌, negate, times, Bool, not, ◌&&◌,
  Option, none, some, [], ◌∷◌, ◌++◌, Bytes, str, if◌then◌else◌, is_empty, nat_eq, ◌==◌, ◌||◌,
}

-- time.Second and refreshLead
abbrev pub second : ℕ
second = 1000000000

abbrev pub refresh_lead : ℤ
refresh_lead = pos (60 * 1000000000)

-- What the endpoint's answer comes to.
pub data Answer : Type 0 where
  -- no answer, a status other than 200, or no JSON
  unusable : Answer
  grant : Bytes → ℤ → Answer

-- The fields that ClientCredentials guards with its lock.
pub record Credentials : Type 0 where
  pub tok : Bytes
  pub expires : ℤ

abbrev pub no_token : Credentials
no_token = record { tok = []; expires = pos 0 }

-- time.Duration(n) * time.Second
unfoldable pub ttl_of : ℤ → ℤ
ttl_of n = int_64 (times n second)

-- A very short token is asked for again early.
unfoldable pub lead_of : ℤ → ℤ
lead_of ttl = if le_int ttl refresh_lead then quot ttl 2 else refresh_lead

unfoldable pub hold : Bytes → ℤ → ℤ → Credentials
unfolding ttl_of lead_of
hold token expires_in later = record {
  tok = token;
  expires = later +ℤ (ttl_of expires_in +ℤ negate (lead_of (ttl_of expires_in)));
}

-- The answer, read at `later`: none is the error.
unfoldable pub trade : Credentials → Answer → ℤ → Option Bytes × Credentials
trade c unusable later = (none, c)
trade c (grant token expires_in) later =
    if is_empty token then (none, c) else (some token, hold token expires_in later)

-- Token at a moment: the held one, else a new one.
unfoldable pub token : Credentials → ℤ → Answer → ℤ → Option Bytes × Credentials
token c now answer later =
    if not (is_empty c.tok) && lt_int now c.expires then (some c.tok, c) else trade c answer later

-- The three shapes of a Source: None, Static and ClientCredentials.
pub data Source : Type 0 where
  bare : Source
  pasted : Bytes → Source
  client : Credentials → Source

unfoldable pub source_token : Source → ℤ → Answer → ℤ → Option Bytes × Source
source_token bare now answer later = (some [], bare)
source_token (pasted tok) now answer later = (some tok, pasted tok)
source_token (client c) now answer later =
    let (tok, c') = token c now answer later in (tok, client c')

-- strings.TrimSuffix(s, "/")
trim_slash : Bytes → Bytes
trim_slash [] = []
trim_slash (c ∷ []) = if c == b'/' then [] else c ∷ []
trim_slash (c ∷ d ∷ s) = c ∷ trim_slash (d ∷ s)

-- TokenURL
unfoldable pub token_url : Bytes → Bytes
unfolding trim_slash
token_url issuer = trim_slash issuer ++ str "/protocol/openid-connect/token"

-- Authorize: the header, and none of it where there is no token to send; the error is none.
unfoldable pub authorize : Option Bytes → Option (Option Bytes)
authorize none = none
authorize (some tok) = some (if is_empty tok then none else some (str "Bearer " ++ tok))
