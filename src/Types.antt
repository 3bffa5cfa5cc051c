-- ===== src/Types.antt =====
-- include/common/types.hpp: the types that the components exchange. Times are in nanoseconds of one clock.
use cplusplus_arbitrage.Base.{ℕ, String}

abbrev pub Timestamp : Type 0
Timestamp = ℕ

abbrev pub Duration : Type 0
Duration = ℕ

-- `std::chrono::minutes(1)`.
abbrev pub one_minute : Duration
one_minute = 60_000_000_000

pub data Side : Type 0 where
  buy sell : Side

pub data OrderType : Type 0 where
  limit market ioc fok gtc : OrderType

pub data OrderState : Type 0 where
  pending sent acknowledged partial filled canceled rejected expired : OrderState

pub data TradingMode : Type 0 where
  dry_run paper live : TradingMode

unfoldable pub side_to_string : Side → String
side_to_string Side.buy = "BUY"
side_to_string Side.sell = "SELL"

unfoldable pub order_type_to_string : OrderType → String
order_type_to_string OrderType.limit = "LIMIT"
order_type_to_string OrderType.market = "MARKET"
order_type_to_string OrderType.ioc = "IOC"
order_type_to_string OrderType.fok = "FOK"
order_type_to_string OrderType.gtc = "GTC"

unfoldable pub order_state_to_string : OrderState → String
order_state_to_string OrderState.pending = "PENDING"
order_state_to_string OrderState.sent = "SENT"
order_state_to_string OrderState.acknowledged = "ACKNOWLEDGED"
order_state_to_string OrderState.partial = "PARTIAL"
order_state_to_string OrderState.filled = "FILLED"
order_state_to_string OrderState.canceled = "CANCELED"
order_state_to_string OrderState.rejected = "REJECTED"
order_state_to_string OrderState.expired = "EXPIRED"

pub record PriceLevel (D : Type 0) : Type 0 where
  pub price : D
  pub size : D

pub record Fill (D : Type 0) : Type 0 where
  pub order_id : String
  pub trade_id : String
  pub market_id : String
  pub token_id : String
  pub side : Side
  pub price : D
  pub size : D
  pub notional : D
  pub fee : D
  pub fill_time : Timestamp
  pub exchange_time_ms : ℕ

pub record Signal (D : Type 0) : Type 0 where
  pub strategy_name : String
  pub market_id : String
  pub token_id : String
  pub side : Side
  pub target_price : D
  pub target_size : D
  pub expected_edge : D
  pub confidence : D
  pub generated_at : Timestamp
  pub reason : String
