-- ===== src/Conversion/Types.antt =====
-- The enums and the entity of backend/src/conversion-engine/entities/conversion.entity.ts, its DTOs, and
-- the values that the services of the engine hand to each other.
use mathlib.Core.Bool.{Bool, true, false}
use paya.Prelude.{ℕ, String, Option, List}

pub data ConversionStatus : Type 0 where
  pending price_discovery executing bridging settling completed failed cancelled : ConversionStatus

pub data Chain : Type 0 where
  ethereum bsc solana stellar : Chain

pub data TokenType : Type 0 where
  btc eth usdc usdt : TokenType

pub data DexType : Type 0 where
  uniswap pancakeswap raydium jupiter : DexType

pub data BridgeType : Type 0 where
  wormhole allbridge stargaze : BridgeType

abbrev pub is_stellar : Chain → Bool
is_stellar stellar = true
is_stellar _ = false

-- The value of the enum, as it stands in a key.
abbrev pub token_name : TokenType → String
token_name btc = "BTC"
token_name eth = "ETH"
token_name usdc = "USDC"
token_name usdt = "USDT"

-- Of `PriceData`, `SlippageCalculation`, `TradeRoute`, `SwapTransaction`, `TransactionData`,
-- `TransactionResult`, `BridgeQuote`, `BridgeTransaction`, `BridgeResult` and `SettlementData` the
-- fields that the conversion service reads, stores or passes on.
pub record SlippageCalculation (Num : Type 0) : Type 0 where
  pub expected_slippage : Num
  pub slippage_tolerance : Num

pub record TradeRoute (Num : Type 0) : Type 0 where
  pub dex : DexType
  pub path : List String
  pub expected_amount : Num
  pub gas_estimate : Num
  pub price_impact : Num
  pub hops : ℕ

pub record SwapTransaction : Type 0 where
  pub to : String
  pub call_data : String
  pub value : String
  pub gas_limit : String
  pub gas_price : String

pub record TransactionData : Type 0 where
  pub chain : Chain
  pub to : String
  pub call_data : String
  pub value : String
  pub gas_limit : String
  pub gas_price : String
  pub nonce : ℕ

pub data TransactionStatus : Type 0 where
  pending confirmed failed : TransactionStatus

pub record TransactionResult : Type 0 where
  pub tx_hash : String
  pub status : TransactionStatus

pub record BridgeQuote (Num : Type 0) : Type 0 where
  pub bridge : BridgeType
  pub source_chain : Chain
  pub target_chain : Chain
  pub amount : Num
  pub estimated_fee : Num
  pub estimated_time : Num
  pub reliability : Num

pub record ErrorDetails : Type 0 where
  pub message : String
  pub timestamp : ℕ

-- The entity, without the two columns that the database fills in.
pub record Conversion (Num : Type 0) : Type 0 where
  pub id : String
  pub merchant_id : String
  pub source_token : TokenType
  pub source_chain : Chain
  pub source_amount : Num
  pub target_token : TokenType
  pub target_chain : Chain
  pub target_amount : Num
  pub expected_amount : Num
  pub slippage_tolerance : Num
  pub actual_slippage : Num
  pub status : ConversionStatus
  pub dex_type : Option DexType
  pub bridge_type : Option BridgeType
  -- `priceData`, by its price.
  pub price_data : Num
  pub route_data : Option (TradeRoute Num)
  pub transaction_data : Option SwapTransaction
  pub bridge_data : Option (BridgeQuote Num)
  pub source_tx_hash : Option String
  pub bridge_tx_hash : Option String
  pub settlement_tx_hash : Option String
  pub error_details : Option ErrorDetails
  pub fee_amount : Num
  pub gas_amount : Num
  pub retry_count : ℕ
  pub max_retries : ℕ
  pub completed_at : Option ℕ

-- The optional fields are left out: the service does not read them.
pub record CreateConversionDto (Num : Type 0) : Type 0 where
  pub merchant_id : String
  pub source_token : TokenType
  pub source_chain : Chain
  pub source_amount : Num
  pub target_token : TokenType
  pub target_chain : Chain
  pub slippage_tolerance : Num

-- What `mapToResponseDto` takes from the entity: all but the error and the two counters.
pub record ConversionResponseDto (Num : Type 0) : Type 0 where
  pub id : String
  pub merchant_id : String
  pub source_token : TokenType
  pub source_chain : Chain
  pub source_amount : Num
  pub target_token : TokenType
  pub target_chain : Chain
  pub target_amount : Num
  pub expected_amount : Num
  pub slippage_tolerance : Num
  pub actual_slippage : Num
  pub status : ConversionStatus
  pub dex_type : Option DexType
  pub bridge_type : Option BridgeType
  pub price_data : Num
  pub route_data : Option (TradeRoute Num)
  pub transaction_data : Option SwapTransaction
  pub bridge_data : Option (BridgeQuote Num)
  pub source_tx_hash : Option String
  pub bridge_tx_hash : Option String
  pub settlement_tx_hash : Option String
  pub fee_amount : Num
  pub gas_amount : Num
  pub completed_at : Option ℕ
