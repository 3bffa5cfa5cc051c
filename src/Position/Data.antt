-- ===== src/Position/Data.antt =====
-- Positions, the position manager's state and its snapshots.
use cplusplus_arbitrage.Base.{String, List}
use cplusplus_arbitrage.SortedMap.{Map}
use cplusplus_arbitrage.Types.{Timestamp}

pub record Position (D : Type 0) : Type 0 where
  pub token_id : String
  pub market_id : String
  pub outcome_name : String
  pub size : D
  pub avg_entry_price : D
  pub cost_basis : D
  pub realized_pnl : D
  pub total_fees : D
  pub last_mark_price : D
  pub unrealized_pnl : D
  pub first_entry : Timestamp
  pub last_update : Timestamp

pub record PositionManager (D : Type 0) : Type 0 where
  pub positions : Map String (Position D)
  pub total_realized_pnl : D
  pub daily_realized_pnl : D
  pub total_fees : D

pub record Snapshot (D : Type 0) : Type 0 where
  pub positions : List (Position D)
  pub realized_pnl : D
  pub total_fees : D
  pub timestamp : Timestamp
