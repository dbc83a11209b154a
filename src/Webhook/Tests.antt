-- ===== src/Webhook/Tests.antt =====
-- The theorems on webhooks at concrete calls, and runs of the rate limit.
use paya.Prelude.{◌*◌, ◌≤◌, none, List, [], ◌∷◌, ◌≡◌, refl, arith, All}
use paya.Webhook.RateLimit.{RateLimitMap, rate_data, check_rate_limit}
use paya.Webhook.Bursts.{Check, Within, at, allowed, allowed-le}

abbrev no_windows : RateLimitMap
no_windows id = none

-- Three calls for one webhook in half a second, and one for another in between.
abbrev calls : List Check
calls = at "w" 2 100 ∷ at "v" 5 200 ∷ at "w" 2 300 ∷ at "w" 2 600 ∷ []

calls-Within : All (Within "w" 2 50) calls
calls-Within = ground arith

allowed-le_example : allowed "w" calls no_windows ≤ 2 * 2
allowed-le_example = allowed-le "w" 2 50 calls no_windows (omega arith) calls-Within

-- The third call is turned away.
allowed-calls : allowed "w" calls no_windows ≡ 2
unfolding allowed check_rate_limit rate_data
allowed-calls = refl
