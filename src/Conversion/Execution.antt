-- ===== src/Conversion/Execution.antt =====
-- `executeConversion` of backend/src/conversion-engine/modules/conversion.service.ts, from the point where
-- the conversion is found. Its monad and its steps are shut, so that laws go by the steps.
-- `parseFloat` of the text of a number is taken to give the number back.
pub mod Lawful
pub mod Outcomes
use paya.Prelude.{ℕ, ◌+◌, String, Bool, true, false, not, Option, none, some, if◌then◌else◌}
use paya.Runtime.Action
use paya.Runtime.Action.{Action, Error, Result, ok, err, failure, message_of}
use paya.Runtime.Number.{Number, text}
use paya.Conversion.Types.{
  ConversionStatus, Chain, is_stellar, TransactionStatus, Conversion, ConversionResponseDto,
  TradeRoute, ErrorDetails,
}
use paya.Conversion.Risk.{execute_trade}
use paya.Conversion.Services.{Services, Setting, World, Execution, Moments}

abbrev pub is_confirmed : TransactionStatus → Bool
is_confirmed TransactionStatus.confirmed = true
is_confirmed _ = false

unfoldable pub map_to_response_dto : {Num : Type 0} → Conversion Num → ConversionResponseDto Num
map_to_response_dto c = record {
  id = c.id;
  merchant_id = c.merchant_id;
  source_token = c.source_token;
  source_chain = c.source_chain;
  source_amount = c.source_amount;
  target_token = c.target_token;
  target_chain = c.target_chain;
  target_amount = c.target_amount;
  expected_amount = c.expected_amount;
  slippage_tolerance = c.slippage_tolerance;
  actual_slippage = c.actual_slippage;
  status = c.status;
  dex_type = c.dex_type;
  bridge_type = c.bridge_type;
  price_data = c.price_data;
  route_data = c.route_data;
  transaction_data = c.transaction_data;
  bridge_data = c.bridge_data;
  source_tx_hash = c.source_tx_hash;
  bridge_tx_hash = c.bridge_tx_hash;
  settlement_tx_hash = c.settlement_tx_hash;
  fee_amount = c.fee_amount;
  gas_amount = c.gas_amount;
  completed_at = c.completed_at;
}

infixl 5 ◌>>=◌ ◌>>◌
unfoldable pub ◌>>=◌ :
    {env : Setting} {A B : Type 0}
    → Action (Execution env) A
    → (A → Action (Execution env) B)
    → Action (Execution env) B
m >>= f = Action.◌>>=◌ m f

abbrev pub ◌>>◌ :
    {env : Setting} {A B : Type 0}
    → Action (Execution env) A
    → Action (Execution env) B
    → Action (Execution env) B
m >> k = m >>= λ _. k

module _ (env : Setting) where
  open env use {num, services}
  open num use {Num, of_ℕ, sub, mul, div}

  -- A call of one of the services.
  unfoldable pub call : {A : Type 0} → Action services.State A → Action (Execution env) A
  call m x =
      let (r, s) = m x.world.services in (r, record x { world = record (x.world) { services = s } })

  unfoldable pub pure : {A : Type 0} → A → Action (Execution env) A
  pure a x = (ok a, x)

  unfoldable pub throw_if : Bool → Error → Action (Execution env) (Unit {0})
  throw_if b e x = (if b then err e else ok tt, x)

  -- The statements under `if (c) { … }`.
  unfoldable pub when : Bool → Action (Execution env) (Unit {0}) → Action (Execution env) (Unit {0})
  when b m x = if b then m x else (ok tt, x)

  -- Assignments to fields of `conversion`.
  unfoldable pub assign : (Conversion Num → Conversion Num) → Action (Execution env) (Unit {0})
  assign f x = (ok tt, record x { conversion = f x.conversion })

  -- `await this.conversionRepository.save(conversion)`
  unfoldable pub save_conversion : Action (Execution env) (Unit {0})
  save_conversion x = (
    ok tt,
    record x {
      world = record (x.world) {
        conversions = env.conversions.save x.conversion x.world.conversions;
      };
    },
  )

  unfoldable pub this_conversion : Action (Execution env) (Conversion Num)
  this_conversion x = (ok x.conversion, x)

  abbrev pub set_status : ConversionStatus → Action (Execution env) (Unit {0})
  set_status status = assign (λ c. record c { status = status }) >> save_conversion

  unfoldable pub find_route : Action (Execution env) (TradeRoute Num)
  find_route = do
    c ← this_conversion
    route ← call (
        services.get_best_route c.source_token c.source_chain c.target_token c.target_chain
          c.source_amount)
    assign (λ c. record c {
      dex_type = some route.dex;
      route_data = some route;
      status = ConversionStatus.executing;
    })
    save_conversion
    pure route

  -- The swap, up to its confirmation.
  unfoldable pub swap : TradeRoute Num → Action (Execution env) (Unit {0})
  swap route = do
    c ← this_conversion
    swap_tx ← call (services.execute_swap route env.placeholder_key)
    tx_data ← call (
        services.build_transaction c.source_chain swap_tx.to swap_tx.call_data swap_tx.value
          env.placeholder_key)
    signed_tx ← call (services.sign_transaction tx_data env.placeholder_key)
    hash ← call (services.submit_transaction c.source_chain signed_tx)
    assign (λ c. record c { source_tx_hash = some hash; transaction_data = some swap_tx })
    save_conversion
    tx_result ← call (services.wait_for_confirmation hash c.source_chain)
    throw_if (not (is_confirmed tx_result.status)) (failure "Swap transaction failed")

  -- `actualAmount`
  abbrev pub actual_amount : Conversion Num → TradeRoute Num → Num
  actual_amount c route = div (mul c.source_amount route.expected_amount) c.source_amount

  abbrev pub slippage : Num → Num → Num
  slippage actual expected = mul (env.abs (div (sub actual expected) expected)) (of_ℕ 100)

  -- `if (conversion.targetChain !== Chain.STELLAR) { … }`
  unfoldable pub bridge : Num → Action (Execution env) (Unit {0})
  bridge amount = do
    set_status ConversionStatus.bridging
    c ← this_conversion
    quote ← call (services.get_best_bridge c.source_chain c.target_chain amount)
    assign (λ c. record c { bridge_type = some quote.bridge; bridge_data = some quote })
    save_conversion
    to ← call (services.execute_bridge quote env.placeholder_key)
    result ← call (services.wait_for_bridge_completion to quote.bridge)
    assign (λ c. record c { bridge_tx_hash = some result.tx_hash })
    save_conversion

  -- `riskManagementService.executeTrade`, whose result is not used. The amount is the text of the column
  -- that the conversion was loaded from.
  unfoldable pub record_trade : Moments → Action (Execution env) (Unit {0})
  record_trade m x =
      let c = x.conversion in
      (
        ok tt,
        record x {
          world = record (x.world) {
            risk =
                (execute_trade num env.to_date_string env.volatility_threshold c.merchant_id
                  c.source_token c.target_token (text (num.decimal_text c.source_amount)) m.assessed
                  m.updated x.world.risk).1;
          };
        },
      )

  -- The end of the `try`.
  unfoldable pub complete : Num → String → Moments → Action (Execution env) (Unit {0})
  unfolding record_trade
  complete amount hash m = do
    assign (λ c. record c {
      status = ConversionStatus.completed;
      target_amount = amount;
      settlement_tx_hash = some hash;
      completed_at = some m.completed;
    })
    save_conversion
    record_trade m

  unfoldable pub settle : String → Num → Moments → Action (Execution env) (Unit {0})
  unfolding complete
  settle id amount m = do
    set_status ConversionStatus.settling
    hash ← call (services.deposit_to_vault amount env.placeholder_key id)
    confirmed ← call (services.wait_for_settlement_confirmation hash)
    complete amount confirmed m

  -- What follows the swap.
  unfoldable pub deliver : String → TradeRoute Num → Moments → Action (Execution env) (Unit {0})
  unfolding bridge settle
  deliver id route m = do
    c ← this_conversion
    let amount = actual_amount c route
    assign (λ c. record c { actual_slippage = slippage amount c.expected_amount })
    when (not (is_stellar c.target_chain)) (bridge amount)
    settle id amount m

  -- The `try`, from the call of `getBestRoute` on.
  unfoldable pub proceed : String → Moments → Action (Execution env) (Unit {0})
  unfolding find_route swap deliver
  proceed id m = do route ← find_route; swap route; deliver id route m

  -- The `catch` and the return. Both branches of the test of `retryCount` save.
  unfoldable pub conclude :
      Moments → Result (Unit {0}) → Execution env → Result (ConversionResponseDto Num) × World env
  unfolding map_to_response_dto
  conclude m (ok _) x = (ok (map_to_response_dto x.conversion), x.world)
  conclude m (err e) x =
      let failed : Conversion Num = record (x.conversion) {
        status = ConversionStatus.failed;
        error_details =
            some (record { message = message_of env.driver_message e; timestamp = m.failed });
        retry_count = x.conversion.retry_count + 1;
      } in
      (err e, record (x.world) { conversions = env.conversions.save failed x.world.conversions })

  -- The first save of the `try`.
  unfoldable pub begin : Conversion Num → World env → Execution env
  begin c w =
      let started : Conversion Num = record c { status = ConversionStatus.price_discovery } in
      record {
        conversion = started;
        world = record w { conversions = env.conversions.save started w.conversions };
      }

  -- The rest of the handler.
  unfoldable pub finish :
      String → Moments → Execution env → Result (ConversionResponseDto Num) × World env
  unfolding proceed conclude
  finish id m x = let (r, x') = proceed id m x in conclude m r x'

  unfoldable pub execute_found :
      String → Moments → Option (Conversion Num) → Action (World env) (ConversionResponseDto Num)
  unfolding begin finish
  execute_found id m none w = (err (failure "Conversion not found"), w)
  execute_found id m (some c) w = finish id m (begin c w)
