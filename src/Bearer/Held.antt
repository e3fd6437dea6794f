-- ===== src/Bearer/Held.antt =====
-- The worker's token of internal/bearer/bearer.go over its whole life: what it sends has not expired.
use flickr.Base.{ℕ, ◌*◌, ◌≤◌, ◌<◌, ℤ, pos, ◌<ℤ◌, ◌+ℤ◌, Bool, true, ◌≡◌, ◌⊎◌, Bytes, is_empty}
use flickr.Bearer.{refresh_lead, Answer, unusable, grant, Credentials, no_token, hold, token}

-- A call of Token: when it looks at the clock, the answer that it would get, and when that is there.
pub record Call : Type 0 where
  pub now : ℤ
  pub answer : Answer
  pub later : ℤ

-- A grant is for no less than 0 seconds and for no more than an int64 has nanoseconds for.
abbrev pub Sane : Answer → Type 0
Sane unusable = Unit
Sane (grant tok n) = (m : ℕ) × (n ≡ pos m) × (m ≤ 9223372036)

-- The states that calls lead to, from a worker without a token.
pub data Reaches : Credentials → Type 0 where
  start : Reaches no_token
  call :
      (c : Credentials) (k : Call)
      → Sane k.answer
      → Reaches c
      → Reaches (token c k.now k.answer k.later).1

-- The state after the grant of a token for so many seconds.
pub record Granted (c : Credentials) : Type 0 where
  pub seconds : ℕ
  pub at : ℤ
  pub few : seconds ≤ 9223372036
  pub holds : hold c.tok (pos seconds) at ≡ c

-- A moment before the end of a grant's seconds, and a minute before it where it is for more than one.
abbrev pub InTime : ℤ → ℕ → ℤ → Type 0
InTime now seconds at =
    (now <ℤ at +ℤ pos (seconds * 1000000000))
    × (60 < seconds → now +ℤ refresh_lead <ℤ at +ℤ pos (seconds * 1000000000))

-- A state without a token, or one that a grant left.
abbrev Known : Credentials → Type 0
Known c = (is_empty c.tok ≡ true) ⊎ Granted c

-- What a call sends: the token that it has just been granted, or the held one in time.
abbrev pub Sends : Credentials → Call → Bytes → Type 0
Sends c k tok =
    ((n : ℤ) × (k.answer ≡ grant tok n))
    ⊎ ((g : Granted c) × (c.tok ≡ tok) × InTime k.now g.seconds g.at)
