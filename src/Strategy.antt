-- ===== src/Strategy.antt =====
-- include/strategy/strategy_base.hpp and src/strategy/strategy_base.cpp: the common base, with StrategyConfig
-- of include/config/config.hpp. Underpricing is the strategy S2, MarketMaking S3 and StaleOdds S1; Edge
-- and Lag have the theorems on S2 and S1.
pub mod Underpricing
pub mod Edge
pub mod MarketMaking
pub mod StaleOdds
pub mod Lag
pub mod Examples
use cplusplus_arbitrage.Base.{ℕ, ◌+◌, String, Bool, true}
use cplusplus_arbitrage.Double.{Double}

pub record StrategyConfig (D : Type 0) : Type 0 where
  pub min_edge_cents : D
  pub max_spread_to_trade : D
  pub lag_move_threshold_bps : D
  pub staleness_window_ms : ℕ
  pub min_confidence : D
  pub target_fill_rate : D
  pub enable_s1 : Bool
  pub enable_s2 : Bool
  pub enable_s3 : Bool

pub record StrategyBase (D : Type 0) : Type 0 where
  pub name : String
  pub config : StrategyConfig D
  pub enabled : Bool
  pub signals_generated : ℕ
  pub signals_acted_on : ℕ

module _ {D : Type 0} where
  unfoldable pub create : String → StrategyConfig D → StrategyBase D
  create name config = record {
    name = name;
    config = config;
    enabled = true;
    signals_generated = 0;
    signals_acted_on = 0;
  }

  unfoldable pub record_signal_acted : StrategyBase D → StrategyBase D
  record_signal_acted s = record s { signals_acted_on = s.signals_acted_on + 1 }
