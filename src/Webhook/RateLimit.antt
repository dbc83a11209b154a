-- ===== src/Webhook/RateLimit.antt =====
-- `checkRateLimit` of backend/src/webhook/webhook-delivery.service.ts. `now` is `Date.now()`, in
-- milliseconds.
use paya.Prelude.{
  ℕ, ◌+◌, String, Bool, true, false, Option, none, some, leb, ltb, ◌==◌, str_eq, if◌then◌else◌,
}

pub record RateData : Type 0 where
  pub count : ℕ
  pub reset_time : ℕ

-- `rateLimitMap`, by its `get`.
abbrev pub RateLimitMap : Type 0
RateLimitMap = String → Option RateData

-- `rateLimitMap.set(id, data)`, or an assignment to the object stored under `id`.
abbrev pub set_rate : String → RateData → RateLimitMap → RateLimitMap
set_rate id d m j = if str_eq id j then some d else m j

abbrev pub new_window : ℕ → RateData
new_window now = record { count = 0; reset_time = now + 60000 }

-- The object that the call counts in: a new one if there is none or its time is over.
unfoldable pub rate_data : ℕ → Option RateData → RateData
rate_data now none = new_window now
rate_data now (some d) = if ltb d.reset_time now then new_window now else d

unfoldable pub check_rate_limit : String → ℕ → ℕ → RateLimitMap → Bool × RateLimitMap
check_rate_limit id limit now m =
    let d = rate_data now (m id) in
    if limit == 0
    then (true, m)
    else (if leb limit d.count
        then (false, set_rate id d m)
        else (true, set_rate id (record d { count = d.count + 1 }) m))
