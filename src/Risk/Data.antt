-- ===== src/Risk/Data.antt =====
-- The risk manager's limits, answers and state.
use cplusplus_arbitrage.Base.{ℕ, String, Bool, List}
use cplusplus_arbitrage.SortedMap.{Map}
use cplusplus_arbitrage.Types.{Timestamp}

-- `max_orders_per_minute` is not negative.
pub record RiskConfig (D : Type 0) : Type 0 where
  pub max_notional_per_trade : D
  pub max_daily_loss : D
  pub max_open_positions : D
  pub max_exposure_per_market : D
  pub stop_loss_threshold : D
  pub slippage_threshold_bps : D
  pub max_orders_per_minute : ℕ

-- Why an order is refused, with the values that the message shows.
pub data Reason (D : Type 0) : Type 0 where
  none_given : Reason D
  kill_switch_active : String → Reason D
  notional_exceeds_max : (notional max : D) → Reason D
  daily_loss_limit_reached : (loss : D) → Reason D
  daily_loss_spent : Reason D
  max_open_positions_reached : (max : D) → Reason D
  market_exposure_limit_reached : String → (max : D) → Reason D
  insufficient_balance : (need have : D) → Reason D

pub record CheckResult (D : Type 0) : Type 0 where
  pub allowed : Bool
  pub reason : Reason D

pub record RiskManager (D : Type 0) : Type 0 where
  pub config : RiskConfig D
  pub starting_balance : D
  pub current_balance : D
  pub daily_pnl : D
  pub market_exposure : Map String D
  pub open_positions : ℕ
  pub kill_switch : Bool
  pub kill_switch_reason : String
  pub recent_slippage : List (Timestamp × D)
  pub connectivity_issues : ℕ
  pub last_connectivity_issue : Timestamp
  pub order_timestamps : List Timestamp
