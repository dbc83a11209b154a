-- ===== src/Conversion/Risk/Laws.antt =====
-- What an assessment checks, and circuit breakers.
use paya.Prelude.{
  ℕ, ◌+◌, ◌<◌, String, Bool, true, false, not, ◌&&◌, ◌||◌, Option, none, some, ◌≡◌, arith, ltb,
  str_eq_iff, if◌then◌else◌, Option-cases, inl, inr,
}
use paya.Runtime.Number.{Number, Value, plus, exceeds}
use paya.Conversion.Types.{TokenType}
use paya.Conversion.Risk.{
  low, medium, high, extreme, CircuitBreaker, RiskState, pair_key, check_breaker,
  check_circuit_breakers, get_merchant_limits, reset_daily_volumes_if_needed, current_volume,
  volatility_of, assess_risk, trigger_circuit_breaker, check_daily_volume, check_position_limits,
  check_volatility, increase_risk_level, get_default_limits,
}

module _ {Num : Type 0} where
  -- The breaker is on, and its cooldown is not over.
  abbrev pub breaks : ℕ → Option (CircuitBreaker Num) → Bool
  breaks now none = false
  breaks now (some b) = b.enabled && ltb now (b.last_triggered + b.cooldown_period)

  abbrev pub cooldown_of : Option (CircuitBreaker Num) → ℕ
  cooldown_of none = 300000
  cooldown_of (some b) = b.cooldown_period

  abbrev pub is_cooling : TokenType → TokenType → ℕ → RiskState Num → Bool
  is_cooling source target now s = breaks now (s.circuit_breakers (pair_key source target))

  pub check_breaker-approved :
      (source target : TokenType) (now : ℕ) (b : Option (CircuitBreaker Num)) (s : RiskState Num)
      → (check_breaker source target now b s).0.approved ≡ not (breaks now b)
  unfolding check_breaker
  check_breaker-approved source target now none s = ground arith
  check_breaker-approved source target now (some b) s = ground arith

module _ (num : Number) (to_date_string : ℕ → String) where
  open num use {Num, lt}

  -- The trade is larger than the limit of the merchant.
  abbrev pub is_too_large : String → Value Num → RiskState Num → Bool
  is_too_large merchant_id amount s =
      exceeds num amount (get_merchant_limits num to_date_string merchant_id s).max_trade_size

  -- With the trade, the volume of the day exceeds the limit of the merchant.
  abbrev pub is_too_much : String → Value Num → ℕ → RiskState Num → Bool
  is_too_much merchant_id amount now s =
      let s' = reset_daily_volumes_if_needed num to_date_string now s in
      exceeds num (plus num (current_volume num to_date_string merchant_id s') amount)
        (get_merchant_limits num to_date_string merchant_id s).daily_volume_limit

  abbrev pub is_volatile : Num → TokenType → TokenType → Bool
  is_volatile threshold source target =
      lt threshold (
        num.max (volatility_of num to_date_string source) (volatility_of num to_date_string target))

  -- An assessment approves a trade exactly when the trade is not larger than the limit of the
  -- merchant, the volume of the day does not exceed the daily limit with it, the breaker of the pair
  -- is not on or is past its cooldown, and the volatility does not exceed the threshold. Its level is
  -- EXTREME if the breaker refuses, else HIGH if one of the limits does, else MEDIUM if the
  -- volatility does, and else LOW.
  pub assess_risk-Approved :
      (threshold : Num) (merchant_id : String) (source target : TokenType) (amount : Value Num)
      (now : ℕ) (s : RiskState Num)
      → let a =
          (assess_risk num to_date_string threshold merchant_id source target amount now s).0 in
        (a.approved
          ≡ not (
              is_too_large merchant_id amount s
              || is_too_much merchant_id amount now s
              || is_cooling source target now s
              || is_volatile threshold source target))
        × (a.risk_level ≡ (
            if is_cooling source target now s
            then extreme
            else (if is_too_large merchant_id amount s || is_too_much merchant_id amount now s
                then high
                else (if is_volatile threshold source target then medium else low))))
  unfolding assess_risk check_daily_volume check_position_limits check_circuit_breakers
      check_breaker check_volatility increase_risk_level reset_daily_volumes_if_needed
      get_merchant_limits get_default_limits
  assess_risk-Approved threshold merchant_id source target amount now s =
      elim (Option-cases (s.circuit_breakers (pair_key source target))) [
        | inl absent ↦ ground (arith, absent)
        | inr (b, present) ↦ ground (arith, present)
      ]

  -- After `triggerCircuitBreaker`, an assessment of the pair before the cooldown ends refuses the
  -- trade with the level EXTREME, whatever its size. The cooldown is that of the breaker of the pair,
  -- or five minutes if it had none.
  pub trigger_circuit_breaker-assess_risk :
      (threshold : Num) (merchant_id : String) (source target : TokenType) (amount : Value Num)
      (triggered now : ℕ) (s : RiskState Num)
      → now < triggered + cooldown_of (s.circuit_breakers (pair_key source target))
      → let s' = trigger_circuit_breaker num to_date_string source target triggered s in
        let a =
          (assess_risk num to_date_string threshold merchant_id source target amount now s').0 in
        (a.approved ≡ false) × (a.risk_level ≡ extreme)
  unfolding trigger_circuit_breaker
  trigger_circuit_breaker-assess_risk threshold merchant_id source target amount triggered now s h =
      let s' = trigger_circuit_breaker num to_date_string source target triggered s in
      let cooling : is_cooling source target now s' ≡ true =
        elim (Option-cases (s.circuit_breakers (pair_key source target))) [
          | inl absent ↦
              ground
                (arith, absent, h, str_eq_iff (pair_key source target) (pair_key source target))
          | inr (b, present) ↦
              ground
                (arith, present, h, str_eq_iff (pair_key source target) (pair_key source target))
        ] in
      let (approval, level) =
        assess_risk-Approved threshold merchant_id source target amount now s' in
      (ground (arith, approval, cooling), ground (arith, level, cooling))
