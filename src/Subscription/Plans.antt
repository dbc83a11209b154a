-- ===== src/Subscription/Plans.antt =====
-- `calculateNextBillingDate` and `calculateProration` of
-- backend/src/subscription/subscription-plan.service.ts, and `getDaysBetween`.
use paya.Prelude.{ℕ, ◌+◌, ◌-◌, ◌*◌, ◌/◌, ◌<◌, Bool, if◌then◌else◌}
use paya.Runtime.Calendar.{Calendar}
use paya.Runtime.Number.{Number}
use paya.Subscription.Types.{BillingInterval}

module _ (calendar : Calendar) where
  unfoldable pub calculate_next_billing_date : ℕ → BillingInterval → ℕ → ℕ
  calculate_next_billing_date date BillingInterval.daily count = calendar.add_days date count
  calculate_next_billing_date date BillingInterval.weekly count = calendar.add_days date (7 * count)
  calculate_next_billing_date date BillingInterval.monthly count = calendar.add_months date count
  calculate_next_billing_date date BillingInterval.yearly count = calendar.add_years date count

  -- With the default of the third argument.
  abbrev pub next_billing_date : ℕ → BillingInterval → ℕ
  next_billing_date date interval = calculate_next_billing_date date interval 1

  pub next_billing_date-lt :
      (date : ℕ) (interval : BillingInterval) → date < next_billing_date date interval
  unfolding calculate_next_billing_date
  next_billing_date-lt date BillingInterval.daily = calendar.add_days-lt date 0
  next_billing_date-lt date BillingInterval.weekly = calendar.add_days-lt date 6
  next_billing_date-lt date BillingInterval.monthly = calendar.add_months-lt date 0
  next_billing_date-lt date BillingInterval.yearly = calendar.add_years-lt date 0

-- `Math.ceil(Math.abs(end - start) / (1000 * 60 * 60 * 24))`
abbrev pub get_days_between : ℕ → ℕ → ℕ
get_days_between start end = ((start - end) + (end - start) + 86399999) / 86400000

module _ (num : Number) where
  open num use {Num, sub, mul, div}

  unfoldable pub calculate_proration : Num → Num → Num → Num → Bool → Num
  calculate_proration old_plan_amount new_plan_amount days_in_period days_remaining is_upgrade =
      let daily_rate_old = div old_plan_amount days_in_period in
      let daily_rate_new = div new_plan_amount days_in_period in
      let unused_days_value = mul daily_rate_old days_remaining in
      let new_days_value = mul daily_rate_new days_remaining in
      if is_upgrade
      then sub new_days_value unused_days_value
      else sub unused_days_value new_days_value
