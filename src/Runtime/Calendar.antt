-- ===== src/Runtime/Calendar.antt =====
-- The local-time setters of JavaScript's `Date`, in milliseconds: `setDate(getDate() + n)`,
-- `setMonth(getMonth() + n)` and `setFullYear(getFullYear() + n)`. With a positive `n` the date moves
-- on, whatever the length of the month or a change of the clock.
use paya.Prelude.{ℕ, suc, ◌<◌, ◌+◌, ◌*◌, arith}

pub record Calendar : Type 0 where
  pub add_days : ℕ → ℕ → ℕ
  pub add_months : ℕ → ℕ → ℕ
  pub add_years : ℕ → ℕ → ℕ
  pub add_days-lt : (d n : ℕ) → d < add_days d (suc n)
  pub add_months-lt : (d n : ℕ) → d < add_months d (suc n)
  pub add_years-lt : (d n : ℕ) → d < add_years d (suc n)

-- A calendar whose months all have 30 days, for the examples.
abbrev pub even_calendar : Calendar
even_calendar = record {
  add_days = λ d n. d + 86400000 * n;
  add_months = λ d n. d + 2592000000 * n;
  add_years = λ d n. d + 31536000000 * n;
  add_days-lt = λ d n. omega arith;
  add_months-lt = λ d n. omega arith;
  add_years-lt = λ d n. omega arith;
}
