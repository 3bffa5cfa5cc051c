-- ===== src/Funding/Data.antt =====
-- The structs of the funding settlement engine and the engine's state.
use cplusplus_arbitrage.Base.{ℕ, String, Bool, List}
use cplusplus_arbitrage.Base.Int.{ℤ}
use cplusplus_arbitrage.SortedMap.{Map}
use cplusplus_arbitrage.Types.{Side}

pub record FundingRate (D : Type 0) : Type 0 where
  pub venue : String
  pub instrument : String
  pub rate : D
  pub predicted_rate : D
  pub current_funding_time : ℕ
  pub next_funding_time : ℕ
  pub mark_price : D
  pub index_price : D

pub record DemoFillConfig (D : Type 0) : Type 0 where
  pub base_fill_probability : D
  pub spread_penalty_per_bps : D
  pub max_fill_probability : D
  pub min_fill_probability : D
  pub slippage_mean_bps : D
  pub slippage_stddev_bps : D
  pub slippage_skew : D
  pub latency_mean_ms : ℤ
  pub latency_stddev_ms : ℤ
  pub maker_fee_bps : D
  pub taker_fee_bps : D

-- `rejection_reason` is a text of the source, or empty.
pub record SimulatedFill (D : Type 0) : Type 0 where
  pub filled : Bool
  pub fill_price : D
  pub fill_qty : D
  pub fee : D
  pub slippage_bps : D
  pub latency_ms : ℤ
  pub rejection_reason : String

pub record Position (D : Type 0) : Type 0 where
  pub position_id : String
  pub session_id : String
  pub venue : String
  pub instrument : String
  pub qty : D
  pub avg_price : D
  pub mark_price : D
  pub unrealized_pnl : D
  pub margin_used : D
  pub updated_at : ℕ

-- `funding_event_id` is left empty.
pub record FundingEvent (D : Type 0) : Type 0 where
  pub session_id : String
  pub venue : String
  pub instrument : String
  pub funding_rate : D
  pub position_qty : D
  pub notional : D
  pub payment_amount : D
  pub timestamp : ℕ
  pub next_funding_time : ℕ

-- The two ids of the source are left empty.
pub record Fill (D : Type 0) : Type 0 where
  pub session_id : String
  pub venue : String
  pub instrument : String
  pub side : Side
  pub price : D
  pub qty : D
  pub fee : D
  pub timestamp : ℕ
  pub slippage_bps : D
  pub latency_ms : ℤ

pub record Stats (D : Type 0) : Type 0 where
  pub funding_settlements : ℕ
  pub total_funding_received : D
  pub total_funding_paid : D
  pub net_funding : D
  pub orders_simulated : ℕ
  pub orders_filled : ℕ
  pub orders_rejected : ℕ
  pub total_slippage_cost : D
  pub total_fees_paid : D

-- `funding_log` and `fill_log` are what the callbacks have been given, the latest first; the database
-- gets the same funding events, if there is one (`has_db`).
pub record FundingSettlementEngine (D : Type 0) : Type 0 where
  pub has_db : Bool
  pub session_id : String
  pub config : DemoFillConfig D
  pub stats : Stats D
  pub funding_rates : Map String (FundingRate D)
  pub last_settlement_time : Map String ℕ
  pub funding_log : List (FundingEvent D)
  pub fill_log : List (Fill D)
