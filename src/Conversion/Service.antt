-- ===== src/Conversion/Service.antt =====
-- backend/src/conversion-engine/modules/conversion.service.ts. The execution of a
-- conversion that is found is in Execution.
pub mod Calls
pub mod Retries
pub mod Volumes
pub mod Creation
use Prim.Native.String.{◌++◌ as str_append}
use paya.Prelude.{
  ℕ, ◌+◌, String, Bool, true, false, not, Option, none, some, List, ◌&&◌, leb, ltb, str_eq,
  if◌then◌else◌, map,
}
use paya.Runtime.Action.{
  Action, Error, Result, ok, err, failure, query_failed, pure, throw, gets, or_throw, throw_if,
  modify, when, message_of, ◌>>=◌, ◌>>◌,
}
use paya.Runtime.Number.{Number, number}
use paya.Conversion.Types.{
  ConversionStatus, Chain, stellar, is_stellar, TransactionStatus, Conversion, CreateConversionDto,
  ConversionResponseDto, SlippageCalculation, TradeRoute, ErrorDetails,
}
use paya.Conversion.Risk.{assess_risk, execute_trade}
use paya.Conversion.Execution.{map_to_response_dto, execute_found}
use paya.Conversion.Services.{Services, Setting, World, Execution, Moments}

abbrev pub is_failed : ConversionStatus → Bool
is_failed ConversionStatus.failed = true
is_failed _ = false

-- The states in which a conversion can be cancelled.
abbrev pub is_cancellable : ConversionStatus → Bool
is_cancellable ConversionStatus.pending = true
is_cancellable ConversionStatus.price_discovery = true
is_cancellable _ = false

module _ (env : Setting) where
  open env use {num, services}
  open num use {Num, of_ℕ, sub, mul, div}

  -- A call of one of the services.
  abbrev pub serve : {A : Type 0} → Action services.State A → Action (World env) A
  serve m w = let (r, s) = m w.services in (r, record w { services = s })

  abbrev pub find_conversion : String → Action (World env) (Option (Conversion Num))
  find_conversion id = gets (λ w. env.conversions.find_one id w.conversions)

  abbrev pub get_stored : String → Action (World env) (Conversion Num)
  get_stored id = do found ← find_conversion id; or_throw found (failure "Conversion not found")

  unfoldable pub execute_conversion :
      String → Moments → Action (World env) (ConversionResponseDto Num)
  unfolding execute_found
  execute_conversion id m = do found ← find_conversion id; execute_found env id m found

  unfoldable pub get_conversion : String → Action (World env) (ConversionResponseDto Num)
  unfolding map_to_response_dto
  get_conversion id = do c ← get_stored id; pure (map_to_response_dto c)

  -- The order of the rows is that of the repository: the column of the creation is not modelled.
  unfoldable pub get_conversions_by_merchant :
      String → Action (World env) (List (ConversionResponseDto Num))
  get_conversions_by_merchant merchant_id w = (
    ok (
        map map_to_response_dto
          (env.conversions.find_by (λ c. str_eq c.merchant_id merchant_id) w.conversions)),
    w,
  )

  unfoldable pub cancel_conversion : String → Action (World env) (ConversionResponseDto Num)
  unfolding map_to_response_dto
  cancel_conversion id = do
    c ← get_stored id
    throw_if (not (is_cancellable c.status))
        (failure "Conversion cannot be cancelled in current state")
    let cancelled : Conversion Num = record c { status = ConversionStatus.cancelled }
    modify (λ w. record w { conversions = env.conversions.save cancelled w.conversions })
    pure (map_to_response_dto cancelled)

  unfoldable pub retry_conversion :
      String → Moments → Action (World env) (ConversionResponseDto Num)
  unfolding execute_conversion
  retry_conversion id m = do
    c ← get_stored id
    throw_if (not (is_failed c.status)) (failure "Only failed conversions can be retried")
    throw_if (leb c.max_retries c.retry_count) (failure "Maximum retry attempts exceeded")
    execute_conversion id m

  abbrev pub assess : CreateConversionDto Num → ℕ → Action (World env) (Unit {0})
  assess dto now w =
      let (a, s) =
        assess_risk num env.to_date_string env.volatility_threshold dto.merchant_id dto.source_token
          dto.target_token (number dto.source_amount) now w.risk in
      (
        if a.approved
            then ok tt
            else err (failure (str_append "Risk assessment failed: " (env.join_reasons a.reasons))),
        record w { risk = s },
      )

  abbrev pub insert_conversion : Conversion Num → Action (World env) (Unit {0})
  insert_conversion c w = elim (env.conversions.insert c w.conversions) [
    | none ↦ (err query_failed, w)
    | some t ↦ (ok tt, record w { conversions = t })
  ]

  abbrev pub new_conversion :
      CreateConversionDto Num → String → Num → SlippageCalculation Num → Conversion Num
  new_conversion dto uuid price slip = record {
    id = uuid;
    merchant_id = dto.merchant_id;
    source_token = dto.source_token;
    source_chain = dto.source_chain;
    source_amount = dto.source_amount;
    target_token = dto.target_token;
    target_chain = dto.target_chain;
    target_amount = of_ℕ 0;
    expected_amount =
        mul (mul dto.source_amount price) (sub (of_ℕ 1) (div slip.expected_slippage (of_ℕ 100)));
    slippage_tolerance = slip.slippage_tolerance;
    actual_slippage = of_ℕ 0;
    status = ConversionStatus.pending;
    dex_type = none;
    bridge_type = none;
    price_data = price;
    route_data = none;
    transaction_data = none;
    bridge_data = none;
    source_tx_hash = none;
    bridge_tx_hash = none;
    settlement_tx_hash = none;
    error_details = none;
    fee_amount = of_ℕ 0;
    gas_amount = of_ℕ 0;
    retry_count = 0;
    max_retries = 3;
    completed_at = none;
  }

  -- The last statements of `createConversion`.
  unfoldable pub store_conversion : Conversion Num → Action (World env) (ConversionResponseDto Num)
  unfolding map_to_response_dto
  store_conversion c = do insert_conversion c; pure (map_to_response_dto c)

  unfoldable pub create_conversion :
      CreateConversionDto Num → String → ℕ → Action (World env) (ConversionResponseDto Num)
  unfolding store_conversion
  create_conversion dto uuid now = do
    assess dto now
    price ← serve (
        services.get_best_price dto.source_token dto.source_chain dto.target_token dto.target_chain
          dto.source_amount)
    slip ← serve (
        services.calculate_slippage dto.source_token dto.source_chain dto.target_token
          dto.target_chain dto.source_amount price dto.slippage_tolerance)
    store_conversion (new_conversion dto uuid price slip)
