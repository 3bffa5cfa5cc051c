-- ===== src/DeltaNeutral/Data.antt =====
-- The types of include/arbitrage/delta_neutral_enforcer.hpp, with KillEvent of
-- include/persistence/session_database.hpp. A text that the code formats from numbers is kept as a value
-- of `Detail`, `Warning` or `HedgeReason`.
use cplusplus_arbitrage.Base.{ℕ, String, Bool, Option, List}
use cplusplus_arbitrage.Base.Int.{ℤ}
use cplusplus_arbitrage.SortedMap.{Map}
use cplusplus_arbitrage.Types.{Side}
use cplusplus_arbitrage.Funding.{Position}

pub data KillReason : Type 0 where
  basis_divergence : KillReason
  funding_flip : KillReason
  spread_collapse : KillReason
  exchange_halt : KillReason
  drawdown_limit : KillReason
  adl_risk : KillReason
  stablecoin_depeg : KillReason
  liquidation_cascade : KillReason

pub record DeltaNeutralConfig (D : Type 0) : Type 0 where
  pub max_delta_notional : D
  pub delta_hedge_threshold : D
  pub basis_divergence_limit : D
  pub basis_divergence_warning : D
  pub min_funding_spread : D
  pub max_session_drawdown : D
  pub funding_flip_buffer : D
  pub adl_queue_warning : D
  pub adl_queue_critical : D
  pub insurance_fund_warning : D
  pub stablecoin_depeg_warning : D
  pub stablecoin_depeg_critical : D
  pub leverage_ratio_warning : D
  pub oi_skew_critical : D
  pub liquidation_volume_spike : D
  pub exchange_timeout_ms : ℕ
  pub heartbeat_interval_ms : ℕ
  pub api_latency_warning_ms : ℕ
  pub hedge_aggressiveness : D
  pub max_hedge_retries : ℤ
  pub enable_dynamic_sizing : Bool
  pub vol_scaling_factor : D

pub record DeltaSnapshot (D : Type 0) : Type 0 where
  pub timestamp : ℕ
  pub total_long_notional : D
  pub total_short_notional : D
  pub net_delta : D
  pub net_delta_pct : D
  pub delta_by_venue : Map String D
  pub is_neutral : Bool

pub record BasisSnapshot (D : Type 0) : Type 0 where
  pub timestamp : ℕ
  pub mark_price_by_venue : Map String D
  pub index_price_by_venue : Map String D
  pub max_basis_divergence : D
  pub high_basis_venue : String
  pub low_basis_venue : String
  pub basis_spread : D
  pub is_warning : Bool
  pub is_critical : Bool

pub data HedgeReason (D : Type 0) : Type 0 where
  delta_hedge : (net_delta : D) → HedgeReason D
  close_all_positions : HedgeReason D

pub record HedgeOrder (D : Type 0) : Type 0 where
  pub venue : String
  pub instrument : String
  pub side : Side
  pub qty : D
  pub urgency : D
  pub reason : HedgeReason D

pub data Detail (D : Type 0) : Type 0 where
  divergence_exceeds : (divergence limit : D) → Detail D
  flipped_from : (initial current : D) → Detail D
  spread_below : (spread minimum : D) → Detail D
  halted : List String → Detail D
  drawdown_exceeds : (drawdown limit : D) → Detail D
  adl_imminent : String → (queue_position : D) → Detail D
  depegged : String → (depeg : D) → Detail D
  cascade_detected : (oi_skew liq_ratio : D) → Detail D

pub data Warning (D : Type 0) : Type 0 where
  basis_warning : (divergence : D) → Warning D
  spread_collapsing : (spread : D) → Warning D
  exchange_timeout : String → Warning D
  drawdown_warning : (drawdown : D) → Warning D
  adl_warning : String → (queue_position : D) → Warning D
  depeg_warning : String → (depeg : D) → Warning D
  cascade_risk : (oi_skew liq_ratio : Option D) → Warning D

pub record KillSignal (D : Type 0) : Type 0 where
  pub should_kill : Bool
  pub reason : KillReason
  pub detail : Detail D
  pub urgency : D
  pub estimated_loss : D

pub record KillEvent (D : Type 0) : Type 0 where
  pub session_id : String
  pub reason_code : String
  pub reason_detail : Detail D
  pub positions_closed_json : String
  pub timestamp : ℕ
  pub pnl_impact : D

pub record Stats (D : Type 0) : Type 0 where
  pub delta_checks : ℕ
  pub hedges_triggered : ℕ
  pub kill_signals : ℕ
  pub warnings_issued : ℕ
  pub max_delta_seen : D
  pub max_basis_divergence_seen : D
  pub max_drawdown_seen : D
  pub last_all_venues_healthy : ℕ

-- `hedge_log`, `kill_log` and `warning_log` are what the callbacks have been given, and `event_log` what
-- the database has been given if there is one, all with the latest first.
pub record DeltaNeutralEnforcer (D : Type 0) : Type 0 where
  pub has_db : Bool
  pub session_id : String
  pub config : DeltaNeutralConfig D
  pub stats : Stats D
  pub positions : Map String (Position D)
  pub mark_prices : Map String D
  pub index_prices : Map String D
  pub funding_rates : Map String D
  pub last_heartbeat : Map String ℕ
  pub starting_equity : D
  pub current_equity : D
  pub high_water_mark : D
  pub initial_funding_direction : D
  pub funding_direction_set : Bool
  pub adl_queue_positions : Map String D
  pub stablecoin_prices : Map String D
  pub total_oi : D
  pub long_oi : D
  pub short_oi : D
  pub liquidation_volume_24h : D
  pub avg_liquidation_volume : D
  pub hedge_log : List (HedgeOrder D)
  pub kill_log : List (KillSignal D)
  pub warning_log : List (Warning D × D)
  pub event_log : List (KillEvent D)
