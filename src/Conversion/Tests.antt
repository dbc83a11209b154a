-- ===== src/Conversion/Tests.antt =====
-- The theorems on the conversion engine at a small table and services that answer, and runs of the
-- handlers.
use paya.Prelude.{
  ℕ, ◌+◌, ◌≤◌, true, false, Option, none, some, [], ◌∷◌, ◌≡◌, refl, str_eq, str_eq_iff,
  if◌then◌else◌,
}
use paya.Runtime.Action.{ok, is_ok}
use paya.Runtime.ListTable.{list_repository}
use paya.Runtime.Text.{String-set}
use paya.Runtime.WholeNumber.{whole_number}
use paya.Conversion.Types
use paya.Runtime.Number.{number}
use paya.Conversion.Types.{
  Conversion, TokenType, Chain, ConversionStatus, CreateConversionDto, TransactionStatus,
}
use paya.Conversion.Risk
use paya.Conversion.Risk.{RiskState, initial_state, assess_risk, get_merchant_limits}
use paya.Conversion.Risk.Laws.{assess_risk-Approved}
use paya.Conversion.Services.{Services, Setting, World, Moments}
use paya.Conversion.Service.{execute_conversion, create_conversion, cancel_conversion}
use paya.Conversion.Execution.{
  ◌>>=◌, this_conversion, call, assign, save_conversion, pure, throw_if, when, begin, finish,
}
use paya.Conversion.Service.Calls.{Executed, execute_conversion-Executed, cancel_conversion-begin}
use paya.Conversion.Service.Retries.{Call, attempts, attempts-le}
use paya.Conversion.Service.Volumes.{Within, Request, handle_all, handle_all-Within}
use paya.Conversion.Service.Creation.{Created, create_conversion-Created}

abbrev Amount : Type 0
Amount = Option ℕ

conversion_set : IsSet (Conversion Amount)
conversion_set = hlevel String-set

-- The state counts the deposits. The address and the hashes are fixed.
abbrev services : Services Amount
services = record {
  State = ℕ;
  get_best_price = λ a b c d x n. (ok (some 3), n);
  calculate_slippage = λ a b c d x p t n.
      (ok (record { expected_slippage = some 0; slippage_tolerance = some 1 }), n);
  get_best_route = λ a b c d x n. (
    ok (record {
      dex = Types.DexType.uniswap;
      path = "BTC" ∷ "USDC" ∷ [];
      expected_amount = some 30;
      gas_estimate = some 1;
      price_impact = some 0;
      hops = 2;
    }),
    n,
  );
  execute_swap = λ route key n. (
    ok (record {
      to = "dex";
      call_data = "0x1";
      value = "0";
      gas_limit = "200000";
      gas_price = "20";
    }),
    n,
  );
  build_transaction = λ chain to call value key n. (
    ok (record {
      chain = chain;
      to = to;
      call_data = call;
      value = value;
      gas_limit = "200000";
      gas_price = "20";
      nonce = 7;
    }),
    n,
  );
  sign_transaction = λ tx key n. (ok "signed", n);
  submit_transaction = λ chain tx n. (ok "0x2", n);
  wait_for_confirmation =
      λ hash chain n. (ok (record { tx_hash = hash; status = TransactionStatus.confirmed }), n);
  get_best_bridge = λ a b x n. (
    ok (record {
      bridge = Types.BridgeType.wormhole;
      source_chain = a;
      target_chain = b;
      amount = x;
      estimated_fee = some 1;
      estimated_time = some 600;
      reliability = some 9;
    }),
    n,
  );
  execute_bridge = λ quote key n. (ok "bridge", n);
  wait_for_bridge_completion =
      λ to b n. (ok (record { tx_hash = to; status = TransactionStatus.failed }), n);
  deposit_to_vault = λ x key memo n. (ok "0x3", n + 1);
  wait_for_settlement_confirmation = λ hash n. (ok hash, n);
}

abbrev env : Setting
env = record {
  num = whole_number;
  abs = λ x. x;
  services = services;
  conversions = list_repository str_eq str_eq_iff (λ c. c.id) conversion_set;
  volatility_threshold = some 5;
  to_date_string = λ now. "Mon";
  join_reasons = λ rs. "over a limit";
  placeholder_key = "0xa";
  driver_message = "query failed";
}

abbrev moments : Moments
moments = record { completed = 50; assessed = 40; updated = 41; failed = 60 }

abbrev risk : RiskState Amount
unfolding initial_state
risk = initial_state whole_number env.to_date_string 0

abbrev conversion : Conversion Amount
conversion = record {
  id = "c1";
  merchant_id = "m";
  source_token = TokenType.btc;
  source_chain = Chain.ethereum;
  source_amount = some 10;
  target_token = TokenType.usdc;
  target_chain = Chain.bsc;
  target_amount = some 0;
  expected_amount = some 29;
  slippage_tolerance = some 1;
  actual_slippage = some 0;
  status = ConversionStatus.failed;
  dex_type = none;
  bridge_type = none;
  price_data = some 3;
  route_data = none;
  transaction_data = none;
  bridge_data = none;
  source_tx_hash = none;
  bridge_tx_hash = none;
  settlement_tx_hash = none;
  error_details = none;
  fee_amount = some 0;
  gas_amount = some 0;
  retry_count = 1;
  max_retries = 3;
  completed_at = none;
}

abbrev world : World env
world = record { conversions = conversion ∷ []; risk = risk; services = 0 }

abbrev dto : CreateConversionDto Amount
dto = record {
  merchant_id = "m";
  source_token = TokenType.btc;
  source_chain = Chain.ethereum;
  source_amount = some 10;
  target_token = TokenType.usdc;
  target_chain = Chain.stellar;
  slippage_tolerance = some 1;
}

-- An execution pays once, although the bridge reports a failure.
execution_pays : (execute_conversion env "c1" moments world).1.services ≡ 1
unfolding execute_conversion ◌>>=◌ this_conversion call assign save_conversion pure throw_if when
execution_pays = refl

-- A completed conversion can be executed again, and pays again.
second_execution_pays :
    let w = (execute_conversion env "c1" moments world).1 in
    (execute_conversion env "c1" moments w).1.services ≡ 2
unfolding execute_conversion ◌>>=◌ this_conversion call assign save_conversion pure throw_if when
second_execution_pays = refl

assess_risk-Approved_example :
    let a =
      (assess_risk whole_number env.to_date_string
        (some 5)
        "m"
        TokenType.btc
        TokenType.usdc
        (number (some 200000))
        40
        risk).0 in
    (a.approved ≡ false) × (a.risk_level ≡ Risk.high)
unfolding get_merchant_limits initial_state
assess_risk-Approved_example =
    assess_risk-Approved whole_number env.to_date_string (some 5) "m" TokenType.btc TokenType.usdc
      (number (some 200000)) 40 risk

execute_conversion-Executed_example :
    Executed env (some conversion) moments world (execute_conversion env "c1" moments world)
execute_conversion-Executed_example = execute_conversion-Executed env "c1" moments world

cancel_conversion-begin_example :
    let x = begin env conversion world in
    let (answer, w1) = cancel_conversion env "c1" x.world in
    let (outcome, w2) = finish env "c1" moments (record x { world = w1 }) in
    (is_ok answer ≡ true)
    × ((c1 : Conversion Amount) × (env.conversions.find_one "c1" w1.conversions ≡ some c1)
        × (c1.status ≡ ConversionStatus.cancelled))
    × ((c2 : Conversion Amount) × (env.conversions.find_one "c1" w2.conversions ≡ some c2)
        × (c2.status
            ≡ (if is_ok outcome then ConversionStatus.completed else ConversionStatus.failed)))
cancel_conversion-begin_example = cancel_conversion-begin env "c1" moments world conversion refl

attempts-le_example :
    attempts env "c1"
      (Call.retry "c1" moments ∷ Call.cancel "c1" ∷ Call.retry "c1" moments ∷ [])
      world
    ≤ 2
attempts-le_example =
    attempts-le env "c1" (Call.retry "c1" moments ∷ Call.cancel "c1" ∷ Call.retry "c1" moments ∷ [])
      world

no_volumes : Within env risk
unfolding initial_state
no_volumes m v h = cc

handle_all-Within_example :
    Within env
      (handle_all env (Request.create dto "c2" 40 ∷ Request.execute "c2" moments ∷ []) world).risk
handle_all-Within_example =
    handle_all-Within env (Request.create dto "c2" 40 ∷ Request.execute "c2" moments ∷ []) world
      (tt, (refl, tt)) no_volumes

create_conversion-Created_example :
    Created env dto "c2" 40 world (create_conversion env dto "c2" 40 world)
create_conversion-Created_example = create_conversion-Created env dto "c2" 40 world
