-- ===== src/Conversion/Risk.antt =====
-- backend/src/conversion-engine/modules/risk-management.service.ts. The three maps are functions, by
-- their `get`. A reason is the values that its text shows. `to_date_string` is `Date.toDateString`,
-- which the engine and its time zone decide. An amount is a `Value`: a number in a request, and a text
-- when it was read from a decimal column. The statements between two awaits read the clock once.
pub mod Laws
pub mod Limits
use Prim.Native.String.{◌++◌ as str_append}
use paya.Prelude.{
  ℕ, ◌+◌, ◌-◌, ◌/◌, String, Bool, true, false, Option, none, some, List, [], ◌∷◌, ◌++◌, ltb, str_eq,
  get_or, if◌then◌else◌,
}
use paya.Runtime.Number.{Number, truthy, Value, plus, exceeds, value_or_zero}
use paya.Conversion.Types.{TokenType, btc, eth, usdc, usdt, token_name}

pub data RiskLevel : Type 0 where
  low medium high extreme : RiskLevel

-- `levels.indexOf(level)`, and `levels[index]` where the index is one of a level.
abbrev pub index_of : RiskLevel → ℕ
index_of low = 0
index_of medium = 1
index_of high = 2
index_of extreme = 3

-- `increaseRiskLevel`: `levels[Math.max(currentIndex, newIndex)]`.
unfoldable pub increase_risk_level : RiskLevel → RiskLevel → RiskLevel
increase_risk_level current new = if ltb (index_of current) (index_of new) then new else current

pub data Reason (Num : Type 0) : Type 0 where
  trade_size : Value Num → Num → Reason Num
  daily_volume : Value Num → Num → Reason Num
  -- The pair, and the seconds that remain.
  circuit_breaker : TokenType → TokenType → ℕ → Reason Num
  volatility : Num → Num → Reason Num

pub data RecommendedAction : Type 0 where
  reduce_trade_size wait_for_cooldown increase_tolerance : RecommendedAction

pub record PositionLimit (Num : Type 0) : Type 0 where
  pub max_trade_size : Num
  pub daily_volume_limit : Num
  pub concentration_limit : Num
  pub merchant_id : String

-- `Partial<PositionLimit>`. The id in it is overwritten.
pub record PartialLimit (Num : Type 0) : Type 0 where
  pub max_trade_size : Option Num
  pub daily_volume_limit : Option Num
  pub concentration_limit : Option Num

pub record CircuitBreaker (Num : Type 0) : Type 0 where
  pub enabled : Bool
  pub threshold : Num
  pub cooldown_period : ℕ
  pub last_triggered : ℕ

pub record RiskAssessment (Num : Type 0) : Type 0 where
  pub approved : Bool
  pub reasons : List (Reason Num)
  pub risk_level : RiskLevel
  pub recommended_actions : List RecommendedAction

-- What a check returns.
pub record Check (Num : Type 0) : Type 0 where
  pub approved : Bool
  pub reasons : List (Reason Num)
  pub risk_level : RiskLevel

pub record RiskState (Num : Type 0) : Type 0 where
  pub position_limits : String → Option (PositionLimit Num)
  pub daily_volumes : String → Option (Value Num)
  pub circuit_breakers : String → Option (CircuitBreaker Num)
  pub last_reset_date : ℕ

-- `map.set(k, v)`
abbrev pub set_key : {V : Type 0} → String → V → (String → Option V) → String → Option V
set_key k v m j = if str_eq k j then some v else m j

-- `reasons.length === 0`
abbrev pub is_empty : {A : Type 0} → List A → Bool
is_empty [] = true
is_empty (x ∷ xs) = false

abbrev pub pair_key : TokenType → TokenType → String
pair_key source target = str_append (token_name source) (str_append "-" (token_name target))

module _ {Num : Type 0} where
  abbrev pub passed : Check Num
  passed = record { approved = true; reasons = []; risk_level = low }

  abbrev pub refused : Reason Num → RiskLevel → Check Num
  refused reason level = record { approved = false; reasons = reason ∷ []; risk_level = level }

  -- `if (!check.approved) { … }` of `assessRisk`, with the recommended actions of the check and the
  -- level that the branch sets.
  abbrev pub note :
      Check Num
      → List RecommendedAction
      → (RiskLevel → RiskLevel)
      → RiskAssessment Num
      → RiskAssessment Num
  note c actions raise a = if c.approved then a else record a {
    reasons = a.reasons ++ c.reasons;
    recommended_actions = a.recommended_actions ++ actions;
    risk_level = raise a.risk_level;
  }

  -- The breaker object whose cooldown is over.
  abbrev pub disable : CircuitBreaker Num → CircuitBreaker Num
  disable b = record b { enabled = false }

  -- `if (breaker?.enabled) { … }`
  unfoldable pub check_breaker :
      TokenType
      → TokenType
      → ℕ
      → Option (CircuitBreaker Num)
      → RiskState Num
      → Check Num × RiskState Num
  check_breaker source target now none s = (passed, s)
  check_breaker source target now (some b) s =
      if b.enabled
      then (if ltb now (b.last_triggered + b.cooldown_period)
          then (
            refused
                (circuit_breaker source target
                  ((b.last_triggered + b.cooldown_period - now + 999) / 1000))
                extreme,
            s,
          )
          else (
            passed,
            record s {
              circuit_breakers = set_key (pair_key source target) (disable b) s.circuit_breakers;
            },
          ))
      else (passed, s)

  unfoldable pub check_circuit_breakers :
      TokenType → TokenType → ℕ → RiskState Num → Check Num × RiskState Num
  unfolding check_breaker
  check_circuit_breakers source target now s =
      check_breaker source target now (s.circuit_breakers (pair_key source target)) s

module _ (num : Number) (to_date_string : ℕ → String) where
  open num use {Num, of_ℕ, div, lt}

  abbrev pub ratio : ℕ → ℕ → Num
  ratio a b = div (of_ℕ a) (of_ℕ b)

  abbrev pub standard_limits : String → PositionLimit Num
  standard_limits merchant_id = record {
    max_trade_size = of_ℕ 100000;
    daily_volume_limit = of_ℕ 1000000;
    concentration_limit = ratio 1 2;
    merchant_id = merchant_id;
  }

  unfoldable pub get_default_limits : String → RiskState Num → PositionLimit Num
  get_default_limits merchant_id s =
      get_or (s.position_limits "default") (standard_limits merchant_id)

  unfoldable pub get_merchant_limits : String → RiskState Num → PositionLimit Num
  unfolding get_default_limits
  get_merchant_limits merchant_id s =
      get_or (s.position_limits merchant_id) (get_default_limits merchant_id s)

  unfoldable pub set_merchant_limits : String → PartialLimit Num → RiskState Num → RiskState Num
  unfolding get_merchant_limits
  set_merchant_limits merchant_id limits s =
      let current = get_merchant_limits merchant_id s in
      record s {
        position_limits =
            set_key merchant_id
              (record {
                max_trade_size = get_or limits.max_trade_size current.max_trade_size;
                daily_volume_limit = get_or limits.daily_volume_limit current.daily_volume_limit;
                concentration_limit = get_or limits.concentration_limit current.concentration_limit;
                merchant_id = merchant_id;
              })
              s.position_limits;
      }

  unfoldable pub reset_daily_volumes_if_needed : ℕ → RiskState Num → RiskState Num
  reset_daily_volumes_if_needed today s =
      if str_eq (to_date_string today) (to_date_string s.last_reset_date)
      then s
      else record s { daily_volumes = λ _. none; last_reset_date = today }

  -- `this.dailyVolumes.get(merchantId) || 0`
  abbrev pub current_volume : String → RiskState Num → Value Num
  current_volume merchant_id s = value_or_zero num (s.daily_volumes merchant_id)

  unfoldable pub get_daily_volume : String → ℕ → RiskState Num → Value Num × RiskState Num
  unfolding reset_daily_volumes_if_needed
  get_daily_volume merchant_id now s =
      let s' = reset_daily_volumes_if_needed now s in (current_volume merchant_id s', s')

  unfoldable pub check_position_limits : String → Value Num → RiskState Num → Check Num
  unfolding get_merchant_limits
  check_position_limits merchant_id amount s =
      let limits = get_merchant_limits merchant_id s in
      if exceeds num amount limits.max_trade_size
      then refused (trade_size amount limits.max_trade_size) high
      else passed

  unfoldable pub check_daily_volume :
      String → Value Num → ℕ → RiskState Num → Check Num × RiskState Num
  unfolding reset_daily_volumes_if_needed get_merchant_limits
  check_daily_volume merchant_id amount now s =
      let s' = reset_daily_volumes_if_needed now s in
      let limits = get_merchant_limits merchant_id s' in
      let new_volume = plus num (current_volume merchant_id s') amount in
      (
        if exceeds num new_volume limits.daily_volume_limit
            then refused (daily_volume new_volume limits.daily_volume_limit) high
            else passed,
        s',
      )

  -- The entry of `volatilityMap`, or 0.02 where that is zero.
  abbrev pub volatility_of : TokenType → Num
  volatility_of t =
      let v : Num = elim t [
        | btc ↦ ratio 3 100
        | eth ↦ ratio 4 100
        | usdc ↦ ratio 1 1000
        | usdt ↦ ratio 1 1000
      ] in
      if truthy num v then v else ratio 2 100

  -- `threshold` is the setting `VOLATILITY_THRESHOLD`.
  unfoldable pub check_volatility : Num → TokenType → TokenType → Check Num
  check_volatility threshold source target =
      let v = num.max (volatility_of source) (volatility_of target) in
      if lt threshold v then refused (volatility v threshold) medium else passed

  unfoldable pub update_daily_volume : String → Value Num → ℕ → RiskState Num → RiskState Num
  unfolding reset_daily_volumes_if_needed
  update_daily_volume merchant_id amount now s =
      let s' = reset_daily_volumes_if_needed now s in
      record s' {
        daily_volumes =
            set_key merchant_id (plus num (current_volume merchant_id s') amount) s'.daily_volumes;
      }

  -- `checkConcentration` approves always, so its branch is left out.
  unfoldable pub assess_risk :
      Num
      → String
      → TokenType
      → TokenType
      → Value Num
      → ℕ
      → RiskState Num
      → RiskAssessment Num × RiskState Num
  unfolding check_position_limits check_daily_volume check_circuit_breakers check_volatility
      increase_risk_level
  assess_risk threshold merchant_id source target amount now s =
      let empty : RiskAssessment Num = record {
        approved = true;
        reasons = [];
        risk_level = low;
        recommended_actions = [];
      } in
      let position = check_position_limits merchant_id amount s in
      let (volume, s1) = check_daily_volume merchant_id amount now s in
      let (breaker, s2) = check_circuit_breakers source target now s1 in
      let volatile = check_volatility threshold source target in
      let a1 = note position [] (λ l. increase_risk_level l position.risk_level) empty in
      let a2 =
        note volume (reduce_trade_size ∷ []) (λ l. increase_risk_level l volume.risk_level) a1 in
      let a3 = note breaker (wait_for_cooldown ∷ []) (λ _. extreme) a2 in
      let a4 =
        note volatile (increase_tolerance ∷ []) (λ l. increase_risk_level l volatile.risk_level)
          a3 in
      (record a4 { approved = is_empty a4.reasons }, s2)

  -- The result is `approved`, and the reasons that its text joins. `later` is the clock after the
  -- await of `checkVolatility`.
  unfoldable pub execute_trade :
      Num
      → String
      → TokenType
      → TokenType
      → Value Num
      → ℕ
      → ℕ
      → RiskState Num
      → (Bool × List (Reason Num)) × RiskState Num
  unfolding assess_risk update_daily_volume
  execute_trade threshold merchant_id source target amount now later s =
      let (a, s') = assess_risk threshold merchant_id source target amount now s in
      if a.approved
      then ((true, []), update_daily_volume merchant_id amount later s')
      else ((false, a.reasons), s')

  abbrev pub new_breaker : ℕ → CircuitBreaker Num
  new_breaker now = record {
    enabled = false;
    threshold = ratio 1 10;
    cooldown_period = 300000;
    last_triggered = now;
  }

  unfoldable pub trigger_circuit_breaker : TokenType → TokenType → ℕ → RiskState Num → RiskState Num
  trigger_circuit_breaker source target now s =
      let key = pair_key source target in
      let breaker = get_or (s.circuit_breakers key) (new_breaker now) in
      record s {
        circuit_breakers =
            set_key key (record breaker { enabled = true; last_triggered = now })
              s.circuit_breakers;
      }

  abbrev pub tokens : List TokenType
  tokens = btc ∷ eth ∷ usdc ∷ usdt ∷ []

  -- `initializeCircuitBreakers`, as its two loops.
  abbrev pub add_breakers : ℕ → List TokenType → TokenType → RiskState Num → RiskState Num
  add_breakers now [] source s = s
  add_breakers now (target ∷ targets) source s = add_breakers now targets source (
      if str_eq (token_name source) (token_name target) then s else record s {
        circuit_breakers = set_key (pair_key source target) (new_breaker now) s.circuit_breakers;
      })

  abbrev pub initialize_circuit_breakers : ℕ → List TokenType → RiskState Num → RiskState Num
  initialize_circuit_breakers now [] s = s
  initialize_circuit_breakers now (source ∷ sources) s =
      initialize_circuit_breakers now sources (add_breakers now tokens source s)

  -- The constructor and the field initializers.
  unfoldable pub initial_state : ℕ → RiskState Num
  initial_state now = initialize_circuit_breakers now tokens (record {
    position_limits = set_key "default" (standard_limits "default") (λ _. none);
    daily_volumes = λ _. none;
    circuit_breakers = λ _. none;
    last_reset_date = now;
  })
