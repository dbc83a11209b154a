-- ===== src/Conversion/Risk/Limits.antt =====
-- The daily volumes over a history of calls.
use paya.Prelude.{
  ℕ, String, true, false, Option, none, some, List, [], ◌∷◌, ◌≡◌, refl, sym, ap, arith, subst, ◌∙◌,
  str_eq_iff, All, get_or, Bool-cases, inl, inr,
}
use paya.Runtime.Number.{Number, Value, plus, exceeds}
use paya.Conversion.Types.{TokenType}
use paya.Conversion.Risk.{
  standard_limits, RiskState, CircuitBreaker, get_merchant_limits, get_default_limits,
  reset_daily_volumes_if_needed, current_volume, assess_risk, execute_trade, check_circuit_breakers,
  check_breaker, check_daily_volume, update_daily_volume, pair_key,
}
use paya.Conversion.Risk.Laws.{assess_risk-Approved, is_too_much}

-- A call of `assessRisk` or `executeTrade`.
pub data Call (Num : Type 0) : Type 0 where
  assess : String → TokenType → TokenType → Value Num → ℕ → Call Num
  trade : String → TokenType → TokenType → Value Num → ℕ → ℕ → Call Num

module _ (num : Number) (to_date_string : ℕ → String) (threshold : num.Num) where
  open num use {Num}

  -- The day does not end between the assessment and the update.
  abbrev pub OnOneDay : Call Num → Type 0
  OnOneDay (assess m a b x now) = Unit
  OnOneDay (trade m a b x now later) = to_date_string now ≡ to_date_string later

  unfoldable pub perform : Call Num → RiskState Num → RiskState Num
  perform (assess m a b x now) s = (assess_risk num to_date_string threshold m a b x now s).1
  perform (trade m a b x now later) s =
      (execute_trade num to_date_string threshold m a b x now later s).1

  unfoldable pub run : List (Call Num) → RiskState Num → RiskState Num
  run [] s = s
  run (c ∷ cs) s = run cs (perform c s)

  -- No volume of the day is over the limit of its merchant.
  abbrev pub WithinLimits : RiskState Num → Type 0
  WithinLimits s =
      (m : String) (v : Value Num)
      → s.daily_volumes m ≡ some v
      → exceeds num v (get_merchant_limits num to_date_string m s).daily_volume_limit ≡ false

  abbrev reset : ℕ → RiskState Num → RiskState Num
  reset now s = reset_daily_volumes_if_needed num to_date_string now s

  breaker-keeps :
      (a b : TokenType) (now : ℕ) (o : Option (CircuitBreaker Num)) (s : RiskState Num)
      → let s' = (check_breaker a b now o s).1 in
        (s'.position_limits ≡ s.position_limits)
        × (s'.daily_volumes ≡ s.daily_volumes)
        × (s'.last_reset_date ≡ s.last_reset_date)
  unfolding check_breaker
  breaker-keeps a b now none s = (refl, refl, refl)
  breaker-keeps a b now (some o) s = ground arith

  reset-keeps :
      (now : ℕ) (s : RiskState Num)
      → ((reset now s).position_limits ≡ s.position_limits)
        × (to_date_string now ≡ to_date_string (reset now s).last_reset_date)
  unfolding reset_daily_volumes_if_needed
  reset-keeps now s =
      ground (arith, str_eq_iff (to_date_string now) (to_date_string s.last_reset_date))

  reset-same :
      (now : ℕ) (s : RiskState Num)
      → to_date_string now ≡ to_date_string s.last_reset_date
      → reset now s ≡ s
  unfolding reset_daily_volumes_if_needed
  reset-same now s h =
      ground (arith, h, str_eq_iff (to_date_string now) (to_date_string s.last_reset_date))

  -- What an assessment leaves: the limits, and the volumes of the day.
  assess_risk-state :
      (m : String) (a b : TokenType) (x : Value Num) (now : ℕ) (s : RiskState Num)
      → let s' = (assess_risk num to_date_string threshold m a b x now s).1 in
        (s'.position_limits ≡ s.position_limits)
        × (s'.daily_volumes ≡ (reset now s).daily_volumes)
        × (s'.last_reset_date ≡ (reset now s).last_reset_date)
  unfolding assess_risk check_daily_volume check_circuit_breakers
  assess_risk-state m a b x now s =
      let t = reset now s in
      let (same_limits, same_volumes, same_date) =
        breaker-keeps a b now (t.circuit_breakers (pair_key a b)) t in
      (same_limits ∙ (reset-keeps now s).0, same_volumes, same_date)

  limits-same :
      (s s' : RiskState Num) (m : String)
      → s'.position_limits ≡ s.position_limits
      → get_merchant_limits num to_date_string m s' ≡ get_merchant_limits num to_date_string m s
  unfolding get_merchant_limits get_default_limits
  limits-same s s' m h =
      ap (λ p. get_or (p m) (get_or (p "default") (standard_limits num to_date_string m))) h

  volumes-reset :
      (now : ℕ) (s : RiskState Num) (m : String) (v : Value Num)
      → (reset now s).daily_volumes m ≡ some v
      → s.daily_volumes m ≡ some v
  unfolding reset_daily_volumes_if_needed
  volumes-reset now s m v h =
      ground (arith, h, str_eq_iff (to_date_string now) (to_date_string s.last_reset_date))

  -- A state with the same limits, each of whose volumes is one of the old state or fits.
  WithinLimits-of :
      (s s' : RiskState Num)
      → s'.position_limits ≡ s.position_limits
      → ((m : String) (v : Value Num)
          → s'.daily_volumes m ≡ some v
          → exceeds num v (get_merchant_limits num to_date_string m s).daily_volume_limit ≡ false)
      → WithinLimits s'
  WithinLimits-of s s' same fits m v h = rw (limits-same s s' m same) (fits m v h)

  assess_risk-WithinLimits :
      (m : String) (a b : TokenType) (x : Value Num) (now : ℕ) (s : RiskState Num)
      → WithinLimits s
      → WithinLimits (assess_risk num to_date_string threshold m a b x now s).1
  assess_risk-WithinLimits m a b x now s w =
      let (same_limits, same_volumes, _) = assess_risk-state m a b x now s in
      WithinLimits-of s (assess_risk num to_date_string threshold m a b x now s).1 same_limits
        λ k v h. w k v (volumes-reset now s k v (sym (ap (λ f. f k) same_volumes) ∙ h))

  -- The volume of an approved trade fits.
  approved-fits :
      (m : String) (a b : TokenType) (x : Value Num) (now : ℕ) (s : RiskState Num)
      → (assess_risk num to_date_string threshold m a b x now s).0.approved ≡ true
      → is_too_much num to_date_string m x now s ≡ false
  approved-fits m a b x now s h =
      ground (arith, h, (assess_risk-Approved num to_date_string threshold m a b x now s).0)

  WithinLimits-update :
      (m : String) (x : Value Num) (later : ℕ) (s : RiskState Num)
      → reset later s ≡ s
      → exceeds num
          (plus num (current_volume num to_date_string m s) x)
          (get_merchant_limits num to_date_string m s).daily_volume_limit
        ≡ false
      → WithinLimits s
      → WithinLimits (update_daily_volume num to_date_string m x later s)
  unfolding update_daily_volume
  WithinLimits-update m x later s still fits w =
      WithinLimits-of s (update_daily_volume num to_date_string m x later s)
        (ap (λ t. t.position_limits) still)
        λ k v h. ground (arith, h, still, fits, w k v, str_eq_iff m k)

  pub perform-WithinLimits :
      (c : Call Num) (s : RiskState Num) → OnOneDay c → WithinLimits s → WithinLimits (perform c s)
  unfolding perform execute_trade
  perform-WithinLimits (assess m a b x now) s d w = assess_risk-WithinLimits m a b x now s w
  perform-WithinLimits (trade m a b x now later) s d w =
      let s1 = (assess_risk num to_date_string threshold m a b x now s).1 in
      let kept = assess_risk-WithinLimits m a b x now s w in
      let (same_limits, same_volumes, same_date) = assess_risk-state m a b x now s in
      let still : reset later s1 ≡ s1 =
        reset-same later s1 (sym d ∙ (reset-keeps now s).1 ∙ sym (ap to_date_string same_date)) in
      elim (Bool-cases (assess_risk num to_date_string threshold m a b x now s).0.approved) [
        | inl approved ↦
            let e : update_daily_volume num to_date_string m x later s1
                ≡ perform (trade m a b x now later) s =
              ground (arith, approved) in
            subst WithinLimits e (
              WithinLimits-update m x later s1 still
                (ground (
                  arith,
                  approved-fits m a b x now s approved,
                  limits-same s s1 m same_limits,
                  same_volumes,
                ))
                kept)
        | inr refusal ↦
            let e : s1 ≡ perform (trade m a b x now later) s = ground (arith, refusal) in
            subst WithinLimits e kept
      ]

  -- Over a history of assessments and trades, none of which spans midnight, from a state where no
  -- recorded volume of the day is over the limit of its merchant, none ever is.
  pub run-WithinLimits :
      (cs : List (Call Num)) (s : RiskState Num)
      → All OnOneDay cs
      → WithinLimits s
      → WithinLimits (run cs s)
  unfolding run
  run-WithinLimits [] s d w = w
  run-WithinLimits (c ∷ cs) s (d, ds) w =
      run-WithinLimits cs (perform c s) ds (perform-WithinLimits c s d w)
