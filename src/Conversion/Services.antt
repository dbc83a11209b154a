-- ===== src/Conversion/Services.antt =====
-- What the conversion service calls: price discovery, slippage protection, the DEXes, the
-- transactions, the bridges and the settlement on Stellar, each a method over a state that only they
-- know, which returns or throws. Of the services of backend/src/conversion-engine/modules behind
-- them nothing is assumed.
use paya.Prelude.{String, str_eq, ℕ, List}
use paya.Runtime.Action.{Action}
use paya.Runtime.Number.{Number}
use paya.Runtime.Repository.{Repository}
use paya.Conversion.Types.{
  Chain, TokenType, BridgeType, SlippageCalculation, TradeRoute, SwapTransaction, TransactionData,
  TransactionResult, BridgeQuote, Conversion,
}
use paya.Conversion.Risk.{Reason, RiskState}

pub record Services (Num : Type 0) : Type 1 where
  pub State : Type 0
  -- The price of `getBestPrice`.
  pub get_best_price : TokenType → Chain → TokenType → Chain → Num → Action State Num
  pub calculate_slippage :
      TokenType
      → Chain
      → TokenType
      → Chain
      → Num
      → Num
      → Num
      → Action State (SlippageCalculation Num)
  pub get_best_route : TokenType → Chain → TokenType → Chain → Num → Action State (TradeRoute Num)
  pub execute_swap : TradeRoute Num → String → Action State SwapTransaction
  pub build_transaction : Chain → String → String → String → String → Action State TransactionData
  pub sign_transaction : TransactionData → String → Action State String
  -- The hash of the transaction.
  pub submit_transaction : Chain → String → Action State String
  pub wait_for_confirmation : String → Chain → Action State TransactionResult
  pub get_best_bridge : Chain → Chain → Num → Action State (BridgeQuote Num)
  -- The address `to` of the bridge transaction.
  pub execute_bridge : BridgeQuote Num → String → Action State String
  -- `txHash` and `status` of the result.
  pub wait_for_bridge_completion : String → BridgeType → Action State TransactionResult
  -- The hash of the settlement, here and below.
  pub deposit_to_vault : Num → String → String → Action State String
  pub wait_for_settlement_confirmation : String → Action State String

-- What surrounds the engine: the numbers with `Math.abs`, the services, the table, the setting
-- `VOLATILITY_THRESHOLD`, `Date.toDateString`, the text of the reasons of a refusal, the private key
-- that stands in for those of all chains, and the message of a database error.
pub record Setting : Type 1 where
  pub num : Number
  pub abs : num.Num → num.Num
  pub services : Services num.Num
  pub conversions : Repository String (Conversion num.Num) str_eq (λ c. c.id)
  pub volatility_threshold : num.Num
  pub to_date_string : ℕ → String
  pub join_reasons : List (Reason num.Num) → String
  pub placeholder_key : String
  pub driver_message : String

pub record World (env : Setting) : Type 0 where
  pub conversions : env.conversions.Table
  pub risk : RiskState env.num.Num
  pub services : env.services.State

-- What an execution works on: the object `conversion`, and the world.
pub record Execution (env : Setting) : Type 0 where
  pub conversion : Conversion env.num.Num
  pub world : World env

-- The times that an execution reads: of the completion, of the assessment, of the update of the
-- volume, and of the error.
pub record Moments : Type 0 where
  pub completed : ℕ
  pub assessed : ℕ
  pub updated : ℕ
  pub failed : ℕ
