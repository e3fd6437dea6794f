-- ===== src/Bearer/Tests.antt =====
-- A worker that is granted a token for five minutes, as in bearer_test.go.
use flickr.Base.{pos, none, ◌≡◌, refl, str, lt_int, le_int, int_64, signed_64, ◌+ℤ◌, negate, times}
use flickr.Bearer.{grant, unusable, Credentials, no_token, ttl_of, lead_of, hold, trade, token}
use flickr.Bearer.Held.{Call}

abbrev first_call : Call
first_call = record { now = pos 5; answer = grant (str "t") (pos 300); later = pos 7 }

abbrev at_first : Credentials
at_first = (token no_token first_call.now first_call.answer first_call.later).1

-- Three minutes on, where the endpoint would say nothing.
abbrev second_call : Call
second_call = record { now = pos 180000000000; answer = unusable; later = pos 180000000000 }

-- A minute before the end it is given up.
given_up : (token at_first (pos 240000000008) unusable (pos 240000000008)).0 ≡ none
unfolding token trade hold ttl_of lead_of int_64 signed_64 times negate ◌+ℤ◌ lt_int le_int str
given_up = refl
