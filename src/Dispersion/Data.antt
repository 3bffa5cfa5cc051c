-- ===== src/Dispersion/Data.antt =====
-- The types of include/arbitrage/funding_dispersion.hpp. A number that the code leaves uninitialised on
-- some path is an Option, `none` there. A text that is formatted from numbers is a value of `Reason`.
use cplusplus_arbitrage.Base.{ℕ, String, Bool, Option, List}
use cplusplus_arbitrage.Base.Int.{ℤ}
use cplusplus_arbitrage.SortedMap.{Map}

pub record FundingRateSnapshot (D : Type 0) : Type 0 where
  pub exchange : String
  pub symbol : String
  pub funding_rate : D
  pub predicted_rate : D
  pub next_funding_time : ℕ
  pub mark_price : D
  pub index_price : D
  pub timestamp_ms : ℕ

pub record FundingSpread (D : Type 0) : Type 0 where
  pub long_exchange : String
  pub short_exchange : String
  pub symbol : String
  pub long_funding : Option D
  pub short_funding : Option D
  pub spread : D

pub record FundingPosition (D : Type 0) : Type 0 where
  pub symbol : String
  pub long_exchange : String
  pub long_size : D
  pub long_entry_price : D
  pub long_entry_funding : D
  pub short_exchange : String
  pub short_size : D
  pub short_entry_price : D
  pub short_entry_funding : D
  pub funding_collected : D
  pub funding_periods : ℤ
  pub entry_time : ℕ
  pub current_basis_divergence : D
  pub unrealized_pnl : D

pub record FundingDispersionConfig (D : Type 0) : Type 0 where
  pub entry_spread_threshold : D
  pub exit_spread_threshold : D
  pub max_basis_divergence : D
  pub max_position_per_exchange : D
  pub max_leverage : D
  pub min_position_usd : D
  pub max_position_usd : D
  pub maker_fee_bps : D
  pub taker_fee_bps : D

pub record Analysis (D : Type 0) : Type 0 where
  pub opportunities : List (FundingSpread D)
  pub best_spread : FundingSpread D
  pub average_spread : Option D
  pub should_enter : Bool
  pub should_exit : Bool

pub data Reason (D : Type 0) : Type 0 where
  below_threshold : (spread threshold : D) → Reason D
  enters : FundingSpread D → Reason D
  basis_risk : (divergence limit : D) → Reason D
  spread_compressed : (spread threshold : D) → Reason D
  funding_flipped : (spread : D) → Reason D
  position_healthy : Reason D

pub record EntrySignal (D : Type 0) : Type 0 where
  pub should_enter : Bool
  pub long_exchange : String
  pub short_exchange : String
  pub recommended_size : Option D
  pub expected_annual_return : Option D
  pub risk_score : Option D
  pub reason : Reason D

pub record ExitSignal (D : Type 0) : Type 0 where
  pub should_exit : Bool
  pub reason : Reason D
  pub urgency : Option D

pub record RiskMetrics (D : Type 0) : Type 0 where
  pub basis_divergence : D
  pub funding_volatility : D
  pub max_drawdown : D
  pub var_99 : D
  pub sharpe_estimate : Option D

pub record Stats (D : Type 0) : Type 0 where
  pub funding_updates : ℕ
  pub opportunities_detected : ℕ
  pub entries_signaled : ℕ
  pub exits_signaled : ℕ
  pub best_spread_seen : D
  pub cumulative_funding_captured : D

-- `signal_log` and `risk_log` are what the callbacks have been given, the latest first.
pub record FundingDispersionStrategy (D : Type 0) : Type 0 where
  pub config : FundingDispersionConfig D
  pub stats : Stats D
  pub current_rates : Map String (FundingRateSnapshot D)
  pub spread_history : List D
  pub signal_log : List (EntrySignal D)
  pub risk_log : List (RiskMetrics D)

-- The variables of the loop for the greatest and the least rate, with the exchanges that have them.
pub record Extremes (D : Type 0) : Type 0 where
  pub max_rate : D
  pub max_ex : String
  pub min_rate : D
  pub min_ex : String
